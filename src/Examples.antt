-- ===== src/Examples.antt =====
-- A small database, on which the theorems are applied.
pub mod Keys
pub mod Lists
pub mod Sets
pub mod Hashes
pub mod Logs
pub mod Requests
pub mod Files
pub mod Users
pub mod Servers
use vanity.Base.{ℕ, ℤ, pos, negsuc, ◌+◌, [], ◌∷◌, List, true}
use vanity.Std.Text.{Text}
use vanity.Std.Map.{Map}
use vanity.Operations.{Data, string_t, int_t, list_t, set_t, hash_t}
use vanity.Database.{Database, Env}

-- Texts of one byte, which serve as keys, elements and fields.
abbrev pub a : Text
a = 97 ∷ []

abbrev pub b : Text
b = 98 ∷ []

abbrev pub c : Text
c = 99 ∷ []

abbrev pub key_l : Text
key_l = 108 ∷ []

abbrev pub key_s : Text
key_s = 115 ∷ []

abbrev pub key_t : Text
key_t = 116 ∷ []

abbrev pub key_h : Text
key_h = 104 ∷ []

abbrev pub key_n : Text
key_n = 110 ∷ []

abbrev pub absent : Text
absent = 122 ∷ []

abbrev pub letters : List Text
letters = a ∷ b ∷ a ∷ []

abbrev pub pairs : Map Text
pairs = (a, b) ∷ (b, c) ∷ []

-- A list, two sets, a hash and an integer, which expires at 10.
abbrev pub stock : Database
stock = record {
  m_index = 0;
  m_data =
      (key_l, list_t letters)
      ∷ (key_s, set_t (a ∷ b ∷ []))
      ∷ (key_t, set_t (b ∷ c ∷ []))
      ∷ (key_h, hash_t pairs)
      ∷ (key_n, int_t (pos 5))
      ∷ [];
  m_expiry_times = (key_n, pos 10) ∷ [];
  m_expiry_enabled = true;
  wal = [];
}

-- Before the integer expires, and after.
abbrev pub early : ℤ
early = pos 3

abbrev pub late : ℤ
late = pos 11

abbrev pub env_at : ℤ → Env
env_at now = record {
  now = now;
  draw = λ i n. 0;
  sample = λ i keys n. keys;
  float_add = λ x y. x + y;
}
