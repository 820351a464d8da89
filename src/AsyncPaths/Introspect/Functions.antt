-- ===== src/AsyncPaths/Introspect/Functions.antt =====
-- `rpc_func_name` and `flag_repr` of crates/introspect/src/lib.rs. A name is its bytes, and `none`
-- stands for a panic.
use wrpc.Prelude.{ℕ, [], ◌∷◌, Option, none, some, Bytes, ltb, ◌==◌, if◌then◌else◌}

-- `Int`, as far as it is used.
pub data IntRepr : Type 0 where
  u8 u16 u32 u64 : IntRepr

-- `flag_repr`, by the number of the flags.
unfoldable pub flag_repr : ℕ → IntRepr
flag_repr n = if ltb n 9 then u8 else (if ltb n 17 then u16 else (if ltb n 33 then u32 else u64))

-- `FunctionKind`; the types of resources are left out.
pub data FunctionKind : Type 0 where
  freestanding async_freestanding method async_method static async_static constructor : FunctionKind

-- `strip_prefix`.
unfoldable pub strip_prefix : Bytes → Bytes → Option Bytes
strip_prefix [] name = some name
strip_prefix (p ∷ ps) [] = none
strip_prefix (p ∷ ps) (c ∷ name) = let rest = strip_prefix ps name in if p == c then rest else none

-- `[constructor]`, `[static]` and `[method]`; nothing for the others.
abbrev pub kind_prefix : FunctionKind → Bytes
kind_prefix freestanding = []
kind_prefix async_freestanding = []
kind_prefix method = 91 ∷ 109 ∷ 101 ∷ 116 ∷ 104 ∷ 111 ∷ 100 ∷ 93 ∷ []
kind_prefix async_method = 91 ∷ 109 ∷ 101 ∷ 116 ∷ 104 ∷ 111 ∷ 100 ∷ 93 ∷ []
kind_prefix static = 91 ∷ 115 ∷ 116 ∷ 97 ∷ 116 ∷ 105 ∷ 99 ∷ 93 ∷ []
kind_prefix async_static = 91 ∷ 115 ∷ 116 ∷ 97 ∷ 116 ∷ 105 ∷ 99 ∷ 93 ∷ []
kind_prefix constructor =
    91 ∷ 99 ∷ 111 ∷ 110 ∷ 115 ∷ 116 ∷ 114 ∷ 117 ∷ 99 ∷ 116 ∷ 111 ∷ 114 ∷ 93 ∷ []

unfoldable pub rpc_func_name : FunctionKind → Bytes → Option Bytes
rpc_func_name kind name = strip_prefix (kind_prefix kind) name
