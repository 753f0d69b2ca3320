-- ===== src/Db/Users/Unique.antt =====
-- Rows of the table `users`: unique ids and names under an insert and under an update of one row,
-- and the number of enabled administrators after such an update.
use certmon.Prelude.{
  ◌+◌, ◌≤◌, String, Bool, true, not, ◌&&◌, ◌≡◌, refl, sym, ap, ◌∙◌, none, some, List, [], ◌∷◌, ◌++◌,
  ◌==◌, eq_iff, arith, same_name, same_name_iff, find, count, update, Bool-cases, inl, inr, bit,
  count-append, count-update_same, count-update_found, count-pos_of_find, count_congr, count_split,
  count-and_found,
}
use certmon.Db.{User}
use certmon.Db.Users.{has_id, has_name, is_enabled_admin}

-- No two rows share an id, and no two share a name up to case.
pub record IsValid (users : List User) : Type 0 where
  pub unique_ids : (id : String) → count (has_id id) users ≤ 1
  pub unique_names : (name : String) → count (has_name name) users ≤ 1

pub count-eq-zero_of_find : (p : User → Bool) (xs : List User) → find p xs ≡ none → count p xs ≡ 0
unfolding find count
count-eq-zero_of_find p [] e = refl
count-eq-zero_of_find p (x ∷ xs) e = ground (arith, count-eq-zero_of_find p xs)

same_name_right : (a b c : String) → same_name a b ≡ true → same_name c a ≡ same_name c b
same_name_right a b c h =
    ground
      (arith, same_name_iff a b, same_name_iff c a, same_name_iff c b, Bool-cases (same_name c a))

-- A new row leaves a key unique if no row has its key.
append_unique :
    (p : User → Bool) (xs : List User) (u : User)
    → count p xs ≤ 1
    → (p u ≡ true → count p xs ≡ 0)
    → count p (xs ++ u ∷ []) ≤ 1
unfolding count
append_unique p xs u h fresh = ground (arith, count-append p xs (u ∷ []))

pub append-IsValid :
    (xs : List User) (u : User)
    → IsValid xs
    → find (has_name u.username) xs ≡ none
    → find (has_id u.id) xs ≡ none
    → IsValid (xs ++ u ∷ [])
append-IsValid xs u v fresh_name fresh_id = record {
  unique_ids = λ id.
      append_unique (has_id id) xs u (v.unique_ids id)
        λ h. rw (← (eq_iff u.id id).0 h) (count-eq-zero_of_find (has_id u.id) xs fresh_id);
  unique_names = λ name. append_unique (has_name name) xs u (v.unique_names name) λ h.
      count_congr (has_name name) (has_name u.username)
        (λ x. sym (same_name_right u.username name x.username h)) xs
      ∙ count-eq-zero_of_find (has_name u.username) xs fresh_name;
}

-- An update of the row of an id, which keeps the id.
module _ (xs : List User) (id : String) (f : User → User) (a : User)
    (keeps : (x : User) → (f x).id ≡ x.id) (found : find (has_id id) xs ≡ some a)
    (v : IsValid xs) where
  one_row : count (has_id id) xs ≡ 1
  one_row = omega (arith, v.unique_ids id, count-pos_of_find (has_id id) xs a found)

  name_bound :
      (name : String)
      → count (λ x. has_name (f a).username x && not (has_id id x)) xs ≡ 0
      → count (has_name name) (update (has_id id) f xs) ≤ 1
  name_bound name fresh = elim (Bool-cases (has_name name (f a))) [
    | inl same ↦ ground (
      arith,
      v.unique_names name,
      one_row,
      count-update_found (has_name name) (has_id id) f xs a one_row found,
      count_split (has_name name) (has_id id) xs,
      count-and_found (has_name name) (has_id id) xs a one_row found,
      count_congr (λ x. has_name name x && not (has_id id x))
          (λ x. has_name (f a).username x && not (has_id id x))
          (λ x.
            ap (λ t. t && not (has_id id x))
              (sym (same_name_right (f a).username name x.username same)))
          xs,
    )
    | inr other ↦ ground (
      arith,
      v.unique_names name,
      count-update_found (has_name name) (has_id id) f xs a one_row found,
    )
  ]

  pub update-IsValid :
      find (λ x. has_name (f a).username x && not (has_id id x)) xs ≡ none
      → IsValid (update (has_id id) f xs)
  update-IsValid fresh = record {
    unique_ids = λ i.
        rw
          (count-update_same (has_id i) (has_id id) f (λ x. ap (λ (t : String). t == i) (keeps x))
            xs)
          (v.unique_ids i);
    unique_names = λ name. name_bound name (count-eq-zero_of_find _ xs fresh);
  }

  -- The number of enabled administrators after the update.
  pub admins_after :
      count is_enabled_admin (update (has_id id) f xs) + bit (is_enabled_admin a)
      ≡ count is_enabled_admin xs + bit (is_enabled_admin (f a))
  admins_after = count-update_found is_enabled_admin (has_id id) f xs a one_row found

-- An update that keeps ids and names.
pub update_same-IsValid :
    (xs : List User) (id : String) (f : User → User)
    → ((x : User) → (f x).id ≡ x.id)
    → ((x : User) → (f x).username ≡ x.username)
    → IsValid xs
    → IsValid (update (has_id id) f xs)
update_same-IsValid xs id f ids names v = record {
  unique_ids = λ i.
      rw (count-update_same (has_id i) (has_id id) f (λ x. ap (λ (t : String). t == i) (ids x)) xs)
        (v.unique_ids i);
  unique_names = λ name.
      rw
        (count-update_same (has_name name) (has_id id) f
          (λ x. ap (λ (t : String). same_name t name) (names x)) xs)
        (v.unique_names name);
}
