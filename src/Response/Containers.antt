-- ===== src/Response/Containers.antt =====
-- The bodies of containers that vanity/response/response.cpp writes, as
-- vanity/request/extractable.cpp reads them at a position.
use vanity.Base.{
  ℕ, suc, ◌+◌, ◌^◌, ◌≤◌, ◌<◌, ◌≡◌, sym, ap, ◌∙◌, List, [], ◌∷◌, ◌++◌, length, drop, arith,
  length-append,
}
use mathlib.Core.List.{append_assoc}
use vanity.Std.Text.{Text}
use vanity.Std.Map.{Map}
use vanity.Std.Set.{Set, insert, merge}
use vanity.Request.Extractable.{Parsed, parsed, resume, expect}
use vanity.Request.Objects.{
  get_len, get_strs, get_list, emplace_strs, get_set, emplace, emplace_pairs, get_hash,
}
use vanity.Response.{
  serialize_length, serialize_string_body, serialize_bodies, serialize_pairs, bracketed,
}
use vanity.Response.Reading.{drop_past, past_within, expect_at, get_len_at, get_str_at}

-- What emplacing the pairs of a map, one by one, makes of another.
unfoldable pub emplace_all : Map Text → Map Text → Map Text
emplace_all acc [] = acc
emplace_all acc ((k, v) ∷ h) = emplace_all (emplace k v acc) h

module _ (msg : Text) (small : length msg < 2 ^ 64) where
  get_strs_at :
      (l : List Text) (p : ℕ) (t : Text)
      → p ≤ length msg
      → drop p msg ≡ serialize_bodies l ++ t
      → get_strs msg (length l) p ≡ parsed l (p + length (serialize_bodies l))
  unfolding get_strs serialize_bodies
  get_strs_at [] p t hp h = ground arith
  get_strs_at (s ∷ l) p t hp h =
      let b = serialize_string_body s in
      let r = serialize_bodies l in
      let e = h ∙ append_assoc b r t in
      let k : p + length b + length r ≡ p + length (b ++ r) = omega (arith, length-append b r) in
      rw
        (
          get_str_at msg small p s (r ++ t) hp e,
          get_strs_at l (p + length b) t (past_within b msg p (r ++ t) hp e)
              (drop_past b msg p (r ++ t) e),
        )
        (ap (λ q. parsed (s ∷ l) q) k)

  emplace_strs_at :
      (s acc : Set) (p : ℕ) (t : Text)
      → p ≤ length msg
      → drop p msg ≡ serialize_bodies s ++ t
      → emplace_strs msg (length s) acc p ≡ parsed (merge acc s) (p + length (serialize_bodies s))
  unfolding emplace_strs serialize_bodies merge
  emplace_strs_at [] acc p t hp h = ground arith
  emplace_strs_at (x ∷ s) acc p t hp h =
      let b = serialize_string_body x in
      let r = serialize_bodies s in
      let e = h ∙ append_assoc b r t in
      let k : p + length b + length r ≡ p + length (b ++ r) = omega (arith, length-append b r) in
      rw
        (
          get_str_at msg small p x (r ++ t) hp e,
          emplace_strs_at s (insert x acc) (p + length b) t (past_within b msg p (r ++ t) hp e)
              (drop_past b msg p (r ++ t) e),
        )
        (ap (λ q. parsed (merge (insert x acc) s) q) k)

  -- A container is read back if its elements are.
  bracketed_at :
      {A : Type 0} (o c : ℕ) (n p : ℕ) (body t eo ec : Text) (a : A) (f : ℕ → ℕ → Parsed A)
      → p ≤ length msg
      → n < 2 ^ 64
      → drop p msg ≡ bracketed o n c body ++ t
      → ((q : ℕ) → q ≤ length msg → drop q msg ≡ body ++ c ∷ t → f n q ≡ parsed a (q + length body))
      → resume (get_len msg p) (λ len q.
        resume
          (expect msg o eo q)
          (λ u r. resume (f len r) (λ x s. resume (expect msg c ec s) (λ v w. parsed x w))))
        ≡ parsed a (p + length (bracketed o n c body))
  bracketed_at o c n p body t eo ec a f hp hn h k =
      let l = serialize_length n in
      let e =
        h
        ∙ append_assoc l (o ∷ (body ++ c ∷ [])) t
        ∙ ap (λ (x : Text). l ++ o ∷ x) (append_assoc body (c ∷ []) t) in
      let q = p + length l in
      let d = drop_past l msg p (o ∷ (body ++ c ∷ t)) e in
      let ho = past_within (o ∷ []) msg q (body ++ c ∷ t) (past_within l msg p _ hp e) d in
      let o1 : q + 1 ≡ suc q = omega arith in
      let d1 : drop (suc q) msg ≡ body ++ c ∷ t =
        ap (λ x. drop x msg) (sym o1) ∙ drop_past (o ∷ []) msg q (body ++ c ∷ t) d in
      let d2 = drop_past body msg (suc q) (c ∷ t) d1 in
      let m : suc (suc q + length body) ≡ p + length (bracketed o n c body) =
        omega (arith, length-append l (o ∷ (body ++ c ∷ [])), length-append body (c ∷ [])) in
      rw
        (
          get_len_at msg small p n (o ∷ (body ++ c ∷ t)) hn e,
          expect_at msg small q o (body ++ c ∷ t) eo d,
          k (suc q) (omega arith) d1,
          expect_at msg small (suc q + length body) c t ec d2,
        )
        (ap (λ x. parsed a x) m)

  emplace_pairs_at :
      (h acc : Map Text) (p : ℕ) (t : Text)
      → p ≤ length msg
      → drop p msg ≡ serialize_pairs h ++ t
      → emplace_pairs msg (length h) acc p
        ≡ parsed (emplace_all acc h) (p + length (serialize_pairs h))
  unfolding emplace_pairs serialize_pairs emplace_all
  emplace_pairs_at [] acc p t hp e = ground arith
  emplace_pairs_at ((k, v) ∷ h) acc p t hp e0 =
      let b = serialize_string_body k in
      let d = serialize_string_body v in
      let r = serialize_pairs h in
      let e = e0 ∙ append_assoc (b ++ d) r t ∙ append_assoc b d (r ++ t) in
      let q = p + length b in
      let hq = past_within b msg p (d ++ (r ++ t)) hp e in
      let dq = drop_past b msg p (d ++ (r ++ t)) e in
      let m : q + length d + length r ≡ p + length (b ++ d ++ r) =
        omega (arith, length-append b d, length-append (b ++ d) r) in
      rw
        (
          get_str_at msg small p k (d ++ (r ++ t)) hp e,
          get_str_at msg small q v (r ++ t) hq dq,
          emplace_pairs_at h (emplace k v acc) (q + length d) t (past_within d msg q (r ++ t) hq dq)
              (drop_past d msg q (r ++ t) dq),
        )
        (ap (λ x. parsed (emplace_all (emplace k v acc) h) x) m)

  module _ (p : ℕ) (t : Text) (hp : p ≤ length msg) where
    pub get_list_at :
        (l : List Text)
        → length l < 2 ^ 64
        → drop p msg ≡ bracketed 91 (length l) 93 (serialize_bodies l) ++ t
        → get_list msg p ≡ parsed l (p + length (bracketed 91 (length l) 93 (serialize_bodies l)))
    unfolding get_list
    get_list_at l hl e =
        bracketed_at 91 93 (length l) p (serialize_bodies l) t _ _ l (get_strs msg) hp hl e
          (λ q hq d. get_strs_at l q (93 ∷ t) hq d)

    pub get_set_at :
        (s : Set)
        → length s < 2 ^ 64
        → drop p msg ≡ bracketed 123 (length s) 125 (serialize_bodies s) ++ t
        → get_set msg p
          ≡ parsed (merge [] s) (p + length (bracketed 123 (length s) 125 (serialize_bodies s)))
    unfolding get_set
    get_set_at s hl e =
        bracketed_at 123 125 (length s) p (serialize_bodies s) t _ _ (merge [] s)
          (λ n. emplace_strs msg n []) hp hl e (λ q hq d. emplace_strs_at s [] q (125 ∷ t) hq d)

    pub get_hash_at :
        (h : Map Text)
        → length h < 2 ^ 64
        → drop p msg ≡ bracketed 123 (length h) 125 (serialize_pairs h) ++ t
        → get_hash msg p
          ≡ parsed
              (emplace_all [] h)
              (p + length (bracketed 123 (length h) 125 (serialize_pairs h)))
    unfolding get_hash
    get_hash_at h hl e =
        bracketed_at 123 125 (length h) p (serialize_pairs h) t _ _ (emplace_all [] h)
          (λ n. emplace_pairs msg n []) hp hl e (λ q hq d. emplace_pairs_at h [] q (125 ∷ t) hq d)
