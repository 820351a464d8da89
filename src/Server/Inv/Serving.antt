-- ===== src/Server/Inv/Serving.antt =====
-- The invariant of Server.Inv where a function is served.
use wrpc.Prelude.{
  ℕ, ◌≡◌, refl, sym, ◌∙◌, ◌⊎◌, inl, inr, Bool, false, ◌&&◌, [], ◌∷◌, ◌++◌, Option, none, some,
  Bytes, arith, length, length-append, if◌then◌else◌, Bool-cases,
}
use wrpc.BTree.{ℕ_ord, eq, get, insert}
use wrpc.BTree.Order.{eq→≡}
use wrpc.Leb128.{Leb128, ReadLeb128}
use wrpc.Reader.{Reader}
use wrpc.Server.{Handlers, Server, find_handler, or_empty, serve_in, serve}
use wrpc.Server.Mailboxes.{
  get-or_empty, find_handler-insert, find_handler-again, mailbox-append, All-map,
}
use wrpc.Server.Inv.{Routed, Inv}

-- What the handlers answer after a function was served that was not before.
abbrev pub Extends : Handlers → Bytes → Bytes → ℕ → Handlers → Type 0
Extends old i n c new =
    (j k : Bytes)
    → find_handler new j k ≡ (if eq i j && eq n k then some c else find_handler old j k)

extended :
    (old new : Handlers) (i n : Bytes) (c : ℕ) (j k : Bytes) (d : ℕ)
    → Extends old i n c new
    → find_handler new j k ≡ some d
    → ((i ≡ j) × (n ≡ k) × (d ≡ c)) ⊎ (find_handler old j k ≡ some d)
extended old new i n c j k d ext h = ground (arith, ext j k, eq→≡ i j, eq→≡ n k)

pub extended_keeps :
    (old new : Handlers) (i n : Bytes) (c : ℕ) (j k : Bytes) (d : ℕ)
    → Extends old i n c new
    → find_handler old i n ≡ none
    → find_handler old j k ≡ some d
    → find_handler new j k ≡ some d
extended_keeps old new i n c j k d ext free h = elim (Bool-cases (eq i j && eq n k)) [
  | inl e ↦
      let a : i ≡ j = eq→≡ i j (ground arith) in
      let b : n ≡ k = eq→≡ n k (ground arith) in absurd (ground (arith, rw (a, b) at free))
  | inr e ↦ ext j k ∙ rw (e) h
]

module _ (C O : Type 0) (leb : Leb128) (utf8 : Bytes → Bool) (leb_reader : ReadLeb128 leb)
    (reader : Reader) where
  serving-Inv :
      (srv : Server C O) (i n : Bytes) (new : Handlers)
      → Extends srv.handlers i n (length srv.mailboxes) new
      → find_handler srv.handlers i n ≡ none
      → Inv C O leb utf8 leb_reader reader srv
      → Inv C O leb utf8 leb_reader reader (record srv {
        handlers = new;
        mailboxes = srv.mailboxes ++ record { pending = []; closed = false } ∷ [];
      })
  serving-Inv srv i n new ext free v = record {
    in_range = λ j k d h.
        let l = length-append srv.mailboxes (record { pending = []; closed = false } ∷ []) in
        elim (extended srv.handlers new i n (length srv.mailboxes) j k d ext h) [
          | inl (a, b, e) ↦ omega arith
          | inr old ↦ omega (arith, v.in_range j k d old)
        ];
    unique = λ j k j' k' d h g.
        elim (extended srv.handlers new i n (length srv.mailboxes) j k d ext h) [
          | inl (a, b, e) ↦
              elim (extended srv.handlers new i n (length srv.mailboxes) j' k' d ext g) [
                | inl (a', b', e') ↦ (sym a ∙ a', sym b ∙ b')
                | inr old ↦ absurd (omega (arith, v.in_range j' k' d old))
              ]
          | inr old ↦ elim (extended srv.handlers new i n (length srv.mailboxes) j' k' d ext g) [
            | inl (a', b', e') ↦ absurd (omega (arith, v.in_range j k d old))
            | inr old' ↦ v.unique j k j' k' d old old'
          ]
        ];
    routed = λ c m h.
        elim (mailbox-append srv.mailboxes (record { pending = []; closed = false }) m c h) [
          | inl old ↦
              All-map (Routed C O leb utf8 leb_reader reader srv.decoder srv.handlers c)
                (Routed C O leb utf8 leb_reader reader srv.decoder new c) m.pending
                (λ x r. (
                  r.0,
                  r.1,
                  r.2,
                  extended_keeps srv.handlers new i n (length srv.mailboxes) r.1.instance_name
                      r.1.name c ext free r.3,
                ))
                (v.routed c m old)
          | inr e ↦ rw (e) tt
        ];
  }

  serve_in-Inv :
      (srv : Server C O) (i n : Bytes) (o : Option ℕ)
      → find_handler srv.handlers i n ≡ o
      → Inv C O leb utf8 leb_reader reader srv
      → Inv C O leb utf8 leb_reader reader (serve_in srv i n (or_empty (get i srv.handlers)) o).1
  unfolding serve_in
  serve_in-Inv srv i n none e v =
      serving-Inv srv i n
        (insert i (insert n (length srv.mailboxes) (or_empty (get i srv.handlers))) srv.handlers)
        (λ j k. find_handler-insert srv.handlers i n j k (length srv.mailboxes)) e v
  serve_in-Inv srv i n (some c) e v =
      let same : (j k : Bytes) → _ = find_handler-again srv.handlers i in
      record {
        in_range = λ j k d h. v.in_range j k d (sym (same j k) ∙ h);
        unique =
            λ j k j' k' d h g. v.unique j k j' k' d (sym (same j k) ∙ h) (sym (same j' k') ∙ g);
        routed = λ d m h.
            All-map (Routed C O leb utf8 leb_reader reader srv.decoder srv.handlers d)
              (Routed C O leb utf8 leb_reader reader srv.decoder
                (insert i (or_empty (get i srv.handlers)) srv.handlers) d)
              m.pending (λ x r. (r.0, r.1, r.2, same r.1.instance_name r.1.name ∙ r.3))
              (v.routed d m h);
      }

  pub serve-Inv :
      (srv : Server C O) (i n : Bytes)
      → Inv C O leb utf8 leb_reader reader srv
      → Inv C O leb utf8 leb_reader reader (serve srv i n).1
  unfolding serve
  serve-Inv srv i n v =
      rw (get-or_empty srv.handlers i n)
        (serve_in-Inv srv i n (find_handler srv.handlers i n) refl v)
