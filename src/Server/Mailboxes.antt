-- ===== src/Server/Mailboxes.antt =====
-- The maps and the channels of `Server` of crates/transport/src/frame/conn/server.rs.
use wrpc.Prelude.{
  ℕ, zero, suc, ◌<◌, ◌≡◌, refl, ap, ◌⊎◌, inl, inr, ◌&&◌, List, [], ◌∷◌, ◌++◌, Option, none, some,
  Bytes, arith, length, drop, if◌then◌else◌, All, Bool-cases,
}
use wrpc.BTree.{BTreeMap, ℕ_ord, eq, get, insert}
use wrpc.BTree.Order.{eq→≡}
use wrpc.BTree.Laws.{get-insert}
use wrpc.Server.{Handlers, Mailbox, in_instance, find_handler, or_empty, mailbox, update_mailbox}

-- The handlers with one more.
pub find_handler-insert :
    (handlers : Handlers) (i n j k : Bytes) (c : ℕ)
    → find_handler (insert i (insert n c (or_empty (get i handlers))) handlers) j k
      ≡ (if eq i j && eq n k then some c else find_handler handlers j k)
unfolding find_handler get
find_handler-insert handlers i n j k c = elim (Bool-cases (eq i j)) [
  | inl e ↦
      rw
        (
          get-insert i j (insert n c (or_empty (get i handlers))) handlers,
          e,
          ← eq→≡ i j e,
          get-insert n k c (or_empty (get i handlers)),
        )
        (by_instance (get i handlers))
  | inr e ↦ rw (get-insert i j (insert n c (or_empty (get i handlers))) handlers, e) refl
]
  where
    by_instance :
        (o : Option (BTreeMap ℕ ℕ))
        → (if eq n k then some c else get k (or_empty o))
          ≡ (if eq n k then some c else in_instance o k)
    by_instance none = refl
    by_instance (some m) = refl

-- Serving a function again leaves the handlers.
pub find_handler-again :
    (handlers : Handlers) (i j k : Bytes)
    → find_handler (insert i (or_empty (get i handlers)) handlers) j k ≡ find_handler handlers j k
unfolding find_handler get
find_handler-again handlers i j k = elim (Bool-cases (eq i j)) [
  | inl e ↦
      rw (get-insert i j (or_empty (get i handlers)) handlers, e, ← eq→≡ i j e)
        (by_instance (get i handlers))
  | inr e ↦ rw (get-insert i j (or_empty (get i handlers)) handlers, e) refl
]
  where
    by_instance : (o : Option (BTreeMap ℕ ℕ)) → get k (or_empty o) ≡ in_instance o k
    by_instance none = refl
    by_instance (some m) = refl

module _ {C O : Type 0} where
  pub length-update_mailbox :
      (f : Mailbox C O → Mailbox C O) (c : ℕ) (ms : List (Mailbox C O))
      → length (update_mailbox f c ms) ≡ length ms
  unfolding update_mailbox
  length-update_mailbox f c [] = refl
  length-update_mailbox f zero (m ∷ ms) = refl
  length-update_mailbox f (suc c) (m ∷ ms) = ap suc (length-update_mailbox f c ms)

  pub mailbox-update_mailbox :
      (f : Mailbox C O → Mailbox C O) (c d : ℕ) (ms : List (Mailbox C O)) (x : Mailbox C O)
      → mailbox (update_mailbox f c ms) d ≡ some x
      → (y : Mailbox C O) × (mailbox ms d ≡ some y) × (((c ≡ d) × (x ≡ f y)) ⊎ (x ≡ y))
  unfolding mailbox update_mailbox
  mailbox-update_mailbox f c d [] x h = cc
  mailbox-update_mailbox f zero zero (m ∷ ms) x h = (m, refl, inl (refl, cc))
  mailbox-update_mailbox f zero (suc d) (m ∷ ms) x h = (x, h, inr refl)
  mailbox-update_mailbox f (suc c) zero (m ∷ ms) x h = (x, h, inr refl)
  mailbox-update_mailbox f (suc c) (suc d) (m ∷ ms) x h =
      let (y, e, k) = mailbox-update_mailbox f c d ms x h in
      elim k [ inl (a, b) ↦ (y, e, inl (ap suc a, b)) | inr b ↦ (y, e, inr b) ]

  pub mailbox-append :
      (ms : List (Mailbox C O)) (m x : Mailbox C O) (c : ℕ)
      → mailbox (ms ++ m ∷ []) c ≡ some x
      → (mailbox ms c ≡ some x) ⊎ (x ≡ m)
  unfolding mailbox
  mailbox-append [] m x zero h = inr cc
  mailbox-append [] m x (suc c) h = cc
  mailbox-append (y ∷ ms) m x zero h = inl h
  mailbox-append (y ∷ ms) m x (suc c) h = mailbox-append ms m x c h

  pub has_mailbox :
      (ms : List (Mailbox C O)) (c : ℕ)
      → c < length ms
      → (m : Mailbox C O) × (mailbox ms c ≡ some m)
  unfolding mailbox
  has_mailbox [] c h = absurd (omega arith)
  has_mailbox (m ∷ ms) zero h = (m, refl)
  has_mailbox (m ∷ ms) (suc c) h = has_mailbox ms c (omega arith)

pub All-append :
    {A : Type 0} (P : A → Type 0) (xs : List A) (x : A) → All P xs → P x → All P (xs ++ x ∷ [])
All-append P [] x h k = (k, tt)
All-append P (y ∷ xs) x (h, hs) k = (h, All-append P xs x hs k)

pub All-drop : {A : Type 0} (P : A → Type 0) (n : ℕ) (xs : List A) → All P xs → All P (drop n xs)
All-drop P zero xs h = h
All-drop P (suc n) [] h = tt
All-drop P (suc n) (x ∷ xs) (h, hs) = All-drop P n xs hs

pub All-map :
    {A : Type 0} (P Q : A → Type 0) (xs : List A) → ((x : A) → P x → Q x) → All P xs → All Q xs
All-map P Q [] f h = tt
All-map P Q (x ∷ xs) f (h, hs) = (f x h, All-map P Q xs f hs)

pub get-or_empty :
    (handlers : Handlers) (i n : Bytes)
    → get n (or_empty (get i handlers)) ≡ find_handler handlers i n
unfolding find_handler get
get-or_empty handlers i n = by_instance (get i handlers)
  where
    by_instance : (o : Option (BTreeMap ℕ ℕ)) → get n (or_empty o) ≡ in_instance o n
    by_instance none = refl
    by_instance (some m) = refl
