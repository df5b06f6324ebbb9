-- ===== src/Data/Keys.antt =====
-- `enum class FactoryKey` of include/globals.hpp: an int, some of whose values have names.
use greencloud.Base.{ℕ, ◌-◌, Bool, true, false, List, [], ◌∷◌, get_or, ltb, if◌then◌else◌}
use greencloud.Base.Int.{ℤ, pos, negsuc, sub_ℕ, ℤ-discrete}

pub data FactoryKey : Type 0 where
  read write disconnect flush trim bad_request ignore q_exit replay : FactoryKey
  key1 key2 key3 key4 key5 key6 key7 key8 key9 key10 : FactoryKey
  unnamed : ℤ → FactoryKey

unfoldable pub FactoryKey-discrete : Discrete FactoryKey
FactoryKey-discrete = hlevel ℤ-discrete

abbrev names : List FactoryKey
names =
    read ∷ write ∷ disconnect ∷ flush ∷ trim ∷ bad_request ∷ ignore ∷ q_exit ∷ replay ∷ key1 ∷ key2
    ∷ key3 ∷ key4 ∷ key5 ∷ key6 ∷ key7 ∷ key8 ∷ key9 ∷ key10 ∷ []

-- `static_cast<FactoryKey>(i)`.
abbrev pub of_int : ℤ → FactoryKey
of_int (pos n) = get_or names n (unnamed (pos n))
of_int (negsuc n) = unnamed (negsuc n)

-- `static_cast<FactoryKey>(c - '0')` at a byte; `char` is signed.
abbrev pub of_digit : ℕ → FactoryKey
of_digit c = if ltb c 128 then of_int (sub_ℕ c b'0') else of_int (negsuc (b'0' - 1 - (c - 256)))

-- `FactoryKey::READ == key`.
abbrev pub is_read : FactoryKey → Bool
is_read read = true
is_read _ = false

abbrev pub is_write : FactoryKey → Bool
is_write write = true
is_write _ = false

abbrev pub is_disconnect : FactoryKey → Bool
is_disconnect disconnect = true
is_disconnect _ = false
