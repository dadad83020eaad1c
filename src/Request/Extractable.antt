-- ===== src/Request/Extractable.antt =====
-- vanity/request/extractable.cpp and extractable.h there: values read from a message.
-- A function takes the position in the message and returns a value and the new position. An exception
-- keeps the position, since the next request of a pipe goes on from it.
use vanity.Base.{ℕ, ◌+◌, ◌%◌, ◌^◌, Bool, ltb, leb, ◌==◌, if◌then◌else◌, length, get_or, take, drop}
use vanity.Std.Text.{Text, codes, text_eq}
use vanity.Std.Convert.{Conversion, no_conversion, range_error, converted, spaces}

-- How an extraction ends: with a value, with an InvalidRequest, with another exception, or with
-- undefined behaviour, a read behind the end of the message.
pub data Parsed (A : Type 0) : Type 0 where
  parsed : A → ℕ → Parsed A
  invalid : Text → ℕ → Parsed A
  failed : ℕ → Parsed A
  undefined : Parsed A

abbrev pub Extract : Type 0 → Type 0
Extract A = ℕ → Parsed A

module _ {A B : Type 0} where
  abbrev pub resume : Parsed A → (A → Extract B) → Parsed B
  resume (parsed a p) f = f a p
  resume (invalid e p) f = invalid e p
  resume (failed p) f = failed p
  resume undefined f = undefined

  infixl 5 ◌>>=◌
  abbrev pub ◌>>=◌ : Extract A → (A → Extract B) → Extract B
  (m >>= f) p = resume (m p) f

abbrev pub give : {A : Type 0} → A → Extract A
give a p = parsed a p

-- throw InvalidRequest(err)
abbrev pub throw : {A : Type 0} → Text → Extract A
throw e p = invalid e p

-- What the code takes from outside the program: std::strtod, on the bytes from the position on, with
-- doubles as 64-bit patterns, and whether a vector can reserve space for so many strings.
pub record Platform : Type 0 where
  pub strtod : Text → Conversion ℕ
  pub can_reserve : ℕ → Bool

-- *this += n, on a size_t
unfoldable pub advance : ℕ → Extract Unit
advance n p = parsed tt ((p + n) % 2 ^ 64)

-- stoull(&current(), &count) and *this += count, or what the exceptions become
unfoldable pub take_number : {A : Type 0} → Conversion A → Text → Text → Extract A
unfolding advance
take_number no_conversion range no_digits p = invalid no_digits p
take_number range_error range no_digits p = invalid range p
take_number (converted a n) range no_digits p = resume (advance n p) (λ u. give a)

module _ (msg : Text) where
  -- m_msg[m_pos]: a zero at the end, undefined behind it
  unfoldable pub current : Extract ℕ
  current p = if ltb (length msg) p then undefined else parsed (get_or msg p 0) p

  unfoldable pub end : ℕ → Bool
  end p = leb (length msg) p

  -- m_msg.compare(m_pos, str.size(), str) == 0, which throws std::out_of_range behind the end
  unfoldable pub compare : Text → Extract Bool
  compare s p =
      if ltb (length msg) p then failed p else parsed (text_eq (take (length s) (drop p msg)) s) p

  unfoldable pub has_up_to : ℕ → ℕ → Bool
  has_up_to n p = leb ((p + n) % 2 ^ 64) (length msg)

  unfoldable pub expect : ℕ → Text → Extract Unit
  expect c err = do d ← current; if d == c then advance 1 else throw err

  unfoldable pub skip_whitespace : Extract Unit
  skip_whitespace p = parsed tt (p + spaces (drop p msg))

  unfoldable pub ensure_end : Extract Unit
  ensure_end = do
    _ ← skip_whitespace
    λ p. if end p then parsed tt p else invalid (codes "unexpected character at end of message") p

  unfoldable pub ensure_end_if : Bool → Extract Unit
  ensure_end_if c = if c then ensure_end else give tt

  unfoldable pub ensure_not_end : Extract Unit
  ensure_not_end = do
    _ ← skip_whitespace
    λ p. if end p then invalid (codes "unexpected end of message") p else parsed tt p
