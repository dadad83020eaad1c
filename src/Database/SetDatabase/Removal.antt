-- ===== src/Database/SetDatabase/Removal.antt =====
-- What set_remove of vanity/db/db/set_database.cpp takes out of a set, whatever the random draws are.
use vanity.Base.{
  ℕ, zero, suc, ◌+◌, ◌≤◌, ◌<◌, ℤ, ◌≡◌, refl, ap, ◌∙◌, true, false, not, ◌&&◌, ◌||◌, false, Option,
  none, some, [], ◌∷◌, length, get_elem?, arith,
}
use Prim.Native.Nat.{min}
use vanity.Std.Text.{Text, eq_iff}
use vanity.Std.Map.{is_some, find, find-assign_self, find-erase_self, find-erase}
use vanity.Std.Map
use vanity.Std.Set.{Set, member, insert, IsSetValue, member-insert, member-erase, erase-IsSetValue}
use vanity.Operations.{set_t}
use vanity.Database.{Database, Env, put}
use vanity.Database.Expiry.{refresh, is_expired, expiry_aware_del}
use vanity.Database.Expiry.Laws.{refresh_fresh, is_expired-refresh}
use vanity.Database.SetDatabase.{
  on_set, set_all, extract_at, remove_random, set_remove, remove_found, store_set,
}
use vanity.Database.SetDatabase.Laws.{size-erase, member-get_elem?}

-- One round, for an element of the set.
module _ (y : Text) (s removed : Set) where
  extract_at-keeps :
      (o : Option Text) → member y removed ≡ true → member y (extract_at o s removed).1 ≡ true
  unfolding extract_at
  extract_at-keeps none h = h
  extract_at-keeps (some x) h = ground (arith, member-insert x y removed)

  extract_at-apart :
      (o : Option Text)
      → member y s && member y removed ≡ false
      → member y (extract_at o s removed).0 && member y (extract_at o s removed).1 ≡ false
  unfolding extract_at
  extract_at-apart none h = h
  extract_at-apart (some x) h = ground (arith, member-insert x y removed, member-erase x y s)

  extract_at-splits :
      (o : Option Text)
      → member y s && member y removed ≡ false
      → member y (extract_at o s removed).0
        ≡ member y s && not (member y (extract_at o s removed).1)
  unfolding extract_at
  extract_at-splits none h = ground arith
  extract_at-splits (some x) h = ground (arith, member-insert x y removed, member-erase x y s)

module _ (draw : ℕ → ℕ → ℕ) (y : Text) where
  removed_stays :
      (n i : ℕ) (s removed : Set)
      → member y removed ≡ true
      → member y (remove_random draw i n s removed).1 ≡ true
  unfolding remove_random
  removed_stays zero i s removed h = h
  removed_stays (suc n) i s removed h =
      let o = get_elem? s (draw i (length s)) in
      removed_stays n (suc i) (extract_at o s removed).0 (extract_at o s removed).1
        (extract_at-keeps y s removed o h)

  remove_random-splits :
      (n i : ℕ) (s removed : Set)
      → member y s && member y removed ≡ false
      → member y (remove_random draw i n s removed).0
        ≡ member y s && not (member y (remove_random draw i n s removed).1)
  unfolding remove_random
  remove_random-splits zero i s removed h = ground arith
  remove_random-splits (suc n) i s removed h =
      let o = get_elem? s (draw i (length s)) in
      let next = extract_at o s removed in
      ground (
        arith,
        remove_random-splits n (suc i) next.0 next.1 (extract_at-apart y s removed o h),
        extract_at-splits y s removed o h,
        removed_stays n (suc i) next.0 next.1,
      )

get_elem?-found : (s : Set) (i : ℕ) → i < length s → is_some (get_elem? s i) ≡ true
get_elem?-found [] i h = ground arith
get_elem?-found (x ∷ s) zero h = refl
get_elem?-found (x ∷ s) (suc i) h = get_elem?-found s i (omega arith)

-- One round, which draws a position of the set, takes one element over.
extract_at-sizes :
    (i : ℕ) (s removed : Set)
    → IsSetValue s
    → ((y : Text) → member y s && member y removed ≡ false)
    → i < length s
    → (length (extract_at (get_elem? s i) s removed).0 + 1 ≡ length s)
      × (length (extract_at (get_elem? s i) s removed).1 ≡ length removed + 1)
unfolding extract_at insert
extract_at-sizes i s removed h apart lt = at (get_elem? s i) refl
  where
    at :
        (o : Option Text)
        → get_elem? s i ≡ o
        → (length (extract_at o s removed).0 + 1 ≡ length s)
          × (length (extract_at o s removed).1 ≡ length removed + 1)
    at none e = ground (arith, get_elem?-found s i lt)
    at (some x) e = ground (arith, size-erase x s h, member-get_elem? s i x e, apart x)

extract_at-IsSetValue :
    (o : Option Text) (s removed : Set) → IsSetValue s → IsSetValue (extract_at o s removed).0
unfolding extract_at
extract_at-IsSetValue none s removed h = h
extract_at-IsSetValue (some x) s removed h = erase-IsSetValue x s h

-- What is drawn from a distribution over 0 to n - 1 lies there.
abbrev pub IsDraw : (ℕ → ℕ → ℕ) → Type 0
IsDraw draw = (i n : ℕ) → 0 < n → draw i n < n

length-remove_random :
    (draw : ℕ → ℕ → ℕ)
    → IsDraw draw
    → (n i : ℕ) (s removed : Set) → IsSetValue s
    → ((y : Text) → member y s && member y removed ≡ false)
    → n ≤ length s
    → length (remove_random draw i n s removed).1 ≡ length removed + n
unfolding remove_random
length-remove_random draw d zero i s removed h apart le = omega arith
length-remove_random draw d (suc n) i s removed h apart le =
    let o = get_elem? s (draw i (length s)) in
    let next = extract_at o s removed in
    let sizes =
      extract_at-sizes (draw i (length s)) s removed h apart (d i (length s) (omega arith)) in
    let rest =
      length-remove_random draw d n (suc i) next.0 next.1 (extract_at-IsSetValue o s removed h)
        (λ y. extract_at-apart y s removed o (apart y)) (omega (arith, sizes.0)) in
    omega (arith, sizes.1, rest)

nothing_removed : (y : Text) (s : Set) → member y s && member y [] ≡ false
unfolding member
nothing_removed y s = ground arith

-- An element that is drawn is one of the set.
extract_at-absent :
    (y : Text) (i : ℕ) (s removed : Set)
    → member y s || member y removed ≡ false
    → (member y (extract_at (get_elem? s i) s removed).0
        || member y (extract_at (get_elem? s i) s removed).1)
      ≡ false
unfolding extract_at
extract_at-absent y i s removed h = at (get_elem? s i) refl
  where
    at :
        (o : Option Text)
        → get_elem? s i ≡ o
        → (member y (extract_at o s removed).0 || member y (extract_at o s removed).1) ≡ false
    at none e = h
    at (some x) e = ground (
      arith,
      h,
      member-get_elem? s i x e,
      member-insert x y removed,
      member-erase x y s,
      eq_iff x y,
      eq_iff y x,
    )

remove_random-absent :
    (draw : ℕ → ℕ → ℕ) (y : Text) (n i : ℕ) (s removed : Set)
    → member y s || member y removed ≡ false
    → member y (remove_random draw i n s removed).1 ≡ false
unfolding remove_random
remove_random-absent draw y zero i s removed h = ground (arith, h)
remove_random-absent draw y (suc n) i s removed h =
    let next = extract_at (get_elem? s (draw i (length s))) s removed in
    remove_random-absent draw y n (suc i) next.0 next.1
      (extract_at-absent y (draw i (length s)) s removed h)

module _ (env : Env) (key y : Text) (count : ℕ) (db : Database) (s : Set) where
  -- SET_REMOVE of a set, a value without repetitions, answers with as many elements as are asked for, or
  -- with as many as there are if they are fewer, if every random draw lies in its range. No element
  -- that it answers with is missing in the set.
  pub set_remove_lem :
      IsDraw env.draw
      → find key (refresh env.now key db).m_data ≡ some (set_t s)
      → IsSetValue s
      → (on_set length (set_remove env key count db).0 ≡ some (min count (length s)))
        × (on_set (λ removed. member y removed && not (member y s)) (set_remove env key count db).0
            ≡ some false)
  unfolding set_remove remove_found member
  set_remove_lem d h v = (
    rw h (
        ap some (
          length-remove_random env.draw d (min count (length s)) 0 s [] v (λ y. nothing_removed y s)
            (omega arith)
          ∙ omega arith)),
    rw h (ap some (ground (arith, remove_random-absent env.draw y (min count (length s)) 0 s []))),
  )

member-store_set :
    (now : ℤ) (key y : Text) (s : Set) (db : Database)
    → is_expired now key db ≡ false
    → on_set (member y) (set_all now key (store_set key s db)).0 ≡ some (member y s)
unfolding store_set set_all expiry_aware_del is_expired
member-store_set now key y [] db h =
    rw
      (
        refresh_fresh now key (store_set key [] db)
            (ground (arith, find-erase_self key db.m_expiry_times)),
        find-erase_self key (Map.assign key (set_t []) db.m_data),
      )
      refl
member-store_set now key y (x ∷ s) db h =
    rw
      (
        refresh_fresh now key (put key (set_t (x ∷ s)) db) h,
        find-assign_self key (set_t (x ∷ s)) db.m_data,
      )
      refl

module _ (env : Env) (key y : Text) (count : ℕ) (db : Database) (s : Set) where
  -- After SET_REMOVE of a set, with whatever random draws, the set at the key holds those of its
  -- elements that SET_REMOVE did not answer with. A missing key counts as an empty set.
  pub set_all-set_remove :
      find key (refresh env.now key db).m_data ≡ some (set_t s)
      → on_set (member y) (set_all env.now key (set_remove env key count db).1).0
        ≡ on_set (λ removed. member y s && not (member y removed)) (set_remove env key count db).0
  unfolding set_remove remove_found
  set_all-set_remove h =
      let r = remove_random env.draw 0 (min count (length s)) s [] in
      rw h (
        member-store_set env.now key y r.0 (refresh env.now key db)
          (is_expired-refresh env.now key db)
        ∙ ap some
            (remove_random-splits env.draw y (min count (length s)) 0 s [] (nothing_removed y s)))
