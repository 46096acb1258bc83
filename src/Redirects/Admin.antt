-- ===== src/Redirects/Admin.antt =====
-- The rules that an admin makes keep the invariant of the redirects.
use safeer_api.Common.{
  ℕ, String, ◌≡◌, refl, ◌∙◌, inl, inr, List, [], ◌∷◌, ◌++◌, Bool, true, false, ◌||◌, arith, str_eq,
  eq_iff, if◌then◌else◌, ◌==◌, ltb, any, select, length, update_where, All, All-append, any-append,
  Bool-cases, ok,
}
use safeer_api.Redirects.{
  Redirect, RedirectDb, leads_from, leads_to, has_redirect_id, is_conflict, assert_no_chain,
}
use safeer_api.Redirects.Direct.{Direct, is_direct, is_loop, is_direct-weaken}

module _ (key : String → String) where
  -- no other rule meets the new one
  abbrev pub NoConflict : (ℕ → Bool) → String → String → RedirectDb → Type 0
  NoConflict is_self from_path to_path db =
      All (λ r. is_conflict key is_self from_path to_path r ≡ false) db.rows

  no_conflict_of_none :
      (c : Redirect → Bool) (rs : List Redirect)
      → ltb 0 (length (select c rs)) ≡ false
      → All (λ r. c r ≡ false) rs
  unfolding select
  no_conflict_of_none c [] h = tt
  no_conflict_of_none c (r ∷ rs) h = elim (Bool-cases (c r)) [
    | inl met ↦ absurd (ground (arith, met, h))
    | inr free ↦ (free, no_conflict_of_none c rs (ground (arith, free, h)))
  ]

  pub assert_no_chain_sound :
      (is_self : ℕ → Bool) (from_path to_path : String) (db : RedirectDb)
      → (assert_no_chain key is_self from_path to_path db).0 ≡ ok tt
      → NoConflict is_self from_path to_path db
  unfolding assert_no_chain
  assert_no_chain_sound is_self from_path to_path db h =
      no_conflict_of_none (is_conflict key is_self from_path to_path) db.rows
        (elim (Bool-cases
          (ltb 0 (length (select (is_conflict key is_self from_path to_path) db.rows)))) [
            | inr none_left ↦ none_left
            | inl some_left ↦ absurd (ground (arith, some_left, h))
          ])

  module _ (new : Redirect) where
    -- a rule that meets none of the others, added to them
    pub Direct-add :
        (next : ℕ) (db : RedirectDb)
        → Direct key db
        → All (λ r. leads_from key new.to_path r || leads_to key new.from_path r ≡ false) db.rows
        → Direct key (record { rows = db.rows ++ new ∷ []; next_id = next })
    unfolding any
    Direct-add next db d free =
        All-append (λ r. is_direct key (db.rows ++ new ∷ []) r ≡ true) db.rows (new ∷ [])
          (old db.rows d free) (own, tt)
      where
        old :
            (rs : List Redirect)
            → All (λ r. is_direct key db.rows r ≡ true) rs
            → All (λ r. leads_from key new.to_path r || leads_to key new.from_path r ≡ false) rs
            → All (λ r. is_direct key (db.rows ++ new ∷ []) r ≡ true) rs
        old [] h k = tt
        old (r ∷ rs) h k = (
          is_direct-weaken key db.rows (db.rows ++ new ∷ []) r
              (λ e.
                any-append (leads_from key r.to_path) db.rows (new ∷ [])
                ∙ ground (
                  arith,
                  e,
                  k.0,
                  eq_iff (key r.to_path) (key new.from_path),
                  eq_iff (key new.from_path) (key r.to_path),
                ))
              h.0,
          old rs h.1 k.1,
        )

        no_source :
            (rs : List Redirect)
            → All (λ r. leads_from key new.to_path r || leads_to key new.from_path r ≡ false) rs
            → any (leads_from key new.to_path) rs ≡ false
        no_source [] k = refl
        no_source (r ∷ rs) k = ground (arith, k.0, no_source rs k.1)

        own : is_direct key (db.rows ++ new ∷ []) new ≡ true
        own =
            let others : any (leads_from key new.to_path) db.rows ≡ false =
              no_source db.rows free in
            let split = any-append (leads_from key new.to_path) db.rows (new ∷ []) in
            elim (Bool-cases (is_loop key new)) [
              | inl loops ↦ ground (arith, loops)
              | inr away ↦ rw split (ground (arith, away, others))
            ]

    -- the rule in the place of the row with its id
    pub Direct-replace :
        (i : ℕ) (db : RedirectDb)
        → Direct key db
        → All (λ r. is_conflict key (λ j. j == i) new.from_path new.to_path r ≡ false) db.rows
        → Direct key (record db { rows = update_where (has_redirect_id i) (λ _. new) db.rows })
    unfolding any update_where
    Direct-replace i db d free = rows db.rows d free
      where
        source :
            (path : String)
            → str_eq (key new.from_path) (key path) ≡ false
            → (rs : List Redirect) → any (leads_from key path) rs ≡ false
            → any (leads_from key path) (update_where (has_redirect_id i) (λ _. new) rs) ≡ false
        source path e [] h = refl
        source path e (r ∷ rs) h = ground (arith, e, h, source path e rs)

        no_source :
            is_loop key new ≡ false
            → (rs : List Redirect)
            → All (λ r. is_conflict key (λ j. j == i) new.from_path new.to_path r ≡ false) rs
            → any (leads_from key new.to_path) (update_where (has_redirect_id i) (λ _. new) rs)
              ≡ false
        no_source away [] k = refl
        no_source away (r ∷ rs) k = ground (arith, away, k.0, no_source away rs k.1)

        own : is_direct key (update_where (has_redirect_id i) (λ _. new) db.rows) new ≡ true
        own = elim (Bool-cases (is_loop key new)) [
          | inl loops ↦ ground (arith, loops)
          | inr away ↦ ground (arith, away, no_source away db.rows free)
        ]

        head :
            (r : Redirect)
            → is_direct key db.rows r ≡ true
            → is_conflict key (λ j. j == i) new.from_path new.to_path r ≡ false
            → is_direct key
                (update_where (has_redirect_id i) (λ _. new) db.rows)
                (if has_redirect_id i r then new else r)
              ≡ true
        head r h k = elim (Bool-cases (has_redirect_id i r)) [
          | inl mine ↦ rw mine own
          | inr other ↦ rw other (
              is_direct-weaken key db.rows (update_where (has_redirect_id i) (λ _. new) db.rows) r
                (λ e.
                  source r.to_path
                    (ground (
                      arith,
                      other,
                      k,
                      eq_iff (key r.to_path) (key new.from_path),
                      eq_iff (key new.from_path) (key r.to_path),
                    ))
                    db.rows e)
                h)
        ]

        rows :
            (rs : List Redirect)
            → All (λ r. is_direct key db.rows r ≡ true) rs
            → All (λ r. is_conflict key (λ j. j == i) new.from_path new.to_path r ≡ false) rs
            → All
                (λ r. is_direct key (update_where (has_redirect_id i) (λ _. new) db.rows) r ≡ true)
                (update_where (has_redirect_id i) (λ _. new) rs)
        rows [] h k = tt
        rows (r ∷ rs) h k = (head r h.0 k.0, rows rs h.1 k.1)
