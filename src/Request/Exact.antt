-- ===== src/Request/Exact.antt =====
-- vanity/request/extractable.h: get and get_exact.
use vanity.Base.{ℕ, ◌-◌, ◌%◌, ◌^◌, Bool, ℤ, pos, negsuc}
use vanity.Std.Text.{Text}
use vanity.Request.Extractable.{Extract, ◌>>=◌, give, ensure_end_if}
use vanity.Request.Call.{Call}

-- Two extractions in their order, for get<Args...>().
abbrev pub both : {A B : Type 0} → Extract A → Extract B → Extract (A × B)
both m n = do a ← m; b ← n; give (a, b)

-- get_exact<Args...>(end)
abbrev pub exact : {A : Type 0} → Text → Extract A → Bool → Extract A
exact msg m end = do a ← m; _ ← ensure_end_if msg end; give a

-- A case of dispatch: what is extracted, and the method that is called with it.
abbrev pub request : {A : Type 0} → Text → Extract A → Bool → (A → Call) → Extract Call
request msg m end f = do a ← exact msg m end; give (f a)

-- A case of dry_dispatch: what is extracted is dropped.
abbrev pub skipped : {A : Type 0} → Text → Extract A → Bool → Extract Unit
skipped msg m end = do a ← exact msg m end; give tt

-- The conversion of an int64_t to a uint16_t
unfoldable pub to_uint16 : ℤ → ℕ
to_uint16 (pos n) = n % 2 ^ 16
to_uint16 (negsuc n) = 2 ^ 16 - 1 - n % 2 ^ 16
