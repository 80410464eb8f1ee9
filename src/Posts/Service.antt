-- ===== src/Posts/Service.antt =====
-- What the use cases of a post promise.
use posts_media.Common.{
  ℕ, String, ◌≡◌, refl, sym, ap, ◌∙◌, true, false, none, some, is_some, string_eq, if◌then◌else◌,
  arith, beq_refl, Option-cases, Bool-cases, inl, inr,
}
use posts_media.Domain.Errors.{DomainError}
use posts_media.Domain.Result.{ok, err}
use posts_media.Database.Table.{Table, find-update_key, count-update_key}
use posts_media.Posts.{
  Post, UpdatePostCommand, post_not_found, update_data, delete_data, restore_data, update_row,
  get_by_id, update, soft_delete, restore,
}

module _ (T : Table String Post) (id : String) where
  abbrev quiet : T.State → T.State
  quiet s = s

  update_row-found :
      (f : Post → Post) (s : T.State) (p : Post)
      → T.find id s ≡ some p
      → ((update_row T id f s).1 ≡ ok (f p)) × (T.find id (update_row T id f s).0 ≡ some (f p))
  unfolding update_row
  update_row-found f s p h = (
    ground (
      arith,
      find-update_key T id id (λ q. true) f s,
      count-update_key T id (λ q. true) f s,
      beq_refl id,
    ),
    ground (arith, find-update_key T id id (λ q. true) f s, beq_refl id),
  )

  -- the three answers, and what each one says of the row
  pub soft_delete-ok :
      (now : ℕ) (s : T.State) (p : Post)
      → T.find id s ≡ some p
      → (q : Post) × ((soft_delete T quiet id now s).1 ≡ ok q)
        × (T.find id (soft_delete T quiet id now s).0 ≡ some q)
        × (is_some q.deleted_at ≡ true)
        × ((soft_delete T quiet id now s).0
            ≡ (if is_some p.deleted_at then s else (update_row T id (delete_data now) s).0))
  unfolding soft_delete
  soft_delete-ok now s p h = elim (Bool-cases (is_some p.deleted_at)) [
    | inl gone ↦ (p, ground arith, ground arith, gone, ground arith)
    | inr active ↦
        let (answer, row) = update_row-found (delete_data now) s p h in
        (delete_data now p, ground arith, ground arith, refl, ground arith)
  ]

  soft_delete-deleted :
      (now : ℕ) (s : T.State) (q : Post)
      → T.find id s ≡ some q
      → is_some q.deleted_at ≡ true
      → soft_delete T quiet id now s ≡ (s, ok q)
  unfolding soft_delete
  soft_delete-deleted now s q h gone = rw (h, gone, soft_delete) refl

  soft_delete-absent :
      (now : ℕ) (s : T.State)
      → T.find id s ≡ none
      → (soft_delete T quiet id now s).1 ≡ err post_not_found
  unfolding soft_delete
  soft_delete-absent now s h = rw (h, soft_delete) refl

  -- DELETE may be repeated: where nobody else interferes, the second request changes nothing and
  -- gives the answer of the first.
  pub soft_delete-soft_delete :
      (now later : ℕ) (s : T.State) (q : Post)
      → (soft_delete T quiet id now s).1 ≡ ok q
      → soft_delete T quiet id later (soft_delete T quiet id now s).0 ≡ soft_delete T quiet id now s
  soft_delete-soft_delete now later s q h = elim (Option-cases (T.find id s)) [
    | inl absent ↦ ground (arith, soft_delete-absent now s absent)
    | inr (p, found) ↦
        let (r, answer, row, gone, _) = soft_delete-ok now s p found in
        soft_delete-deleted later (soft_delete T quiet id now s).0 r row gone
        ∙ ap (λ a. ((soft_delete T quiet id now s).0, a)) (sym answer)
  ]

  restore-row :
      (now : ℕ) (s : T.State) (p : Post)
      → T.find id s ≡ some p
      → is_some p.deleted_at ≡ true
      → T.find id (restore T quiet id now s).0 ≡ some (restore_data now p)
  unfolding restore
  restore-row now s p h gone = rw (h, gone, restore) (update_row-found (restore_data now) s p h).1

  soft_delete-row :
      (now : ℕ) (s : T.State) (p : Post)
      → T.find id s ≡ some p
      → is_some p.deleted_at ≡ false
      → T.find id (soft_delete T quiet id now s).0 ≡ some (delete_data now p)
  unfolding soft_delete
  soft_delete-row now s p h active =
      rw (h, active, soft_delete) (update_row-found (delete_data now) s p h).1

  -- Where nobody else interferes, restoring a post after its deletion gives the post back, with a
  -- later date of change.
  pub restore-soft_delete :
      (now later : ℕ) (s : T.State) (p : Post)
      → T.find id s ≡ some p
      → p.deleted_at ≡ none
      → T.find id (restore T quiet id later (soft_delete T quiet id now s).0).0
        ≡ some (record p { updated_at = later })
  restore-soft_delete now later s p h active =
      restore-row later (soft_delete T quiet id now s).0 (delete_data now p)
        (soft_delete-row now s p h (ap is_some active)) refl
      ∙ ap some (ground (arith, active))

  -- Where nobody else interferes, PATCH answers as GET does: with the same error and no change, or
  -- with the post updated, which is then what is stored.
  pub update-get_by_id :
      (command : UpdatePostCommand) (now : ℕ) (s : T.State)
      → ((e : DomainError)
          → get_by_id T id false s ≡ err e
          → update T quiet id command now s ≡ (s, err e))
        × ((p : Post)
            → get_by_id T id false s ≡ ok p
            → ((update T quiet id command now s).1 ≡ ok (update_data command now p))
              × (T.find id (update T quiet id command now s).0 ≡ some (update_data command now p)))
  unfolding get_by_id update
  update-get_by_id command now s = elim (Option-cases (T.find id s)) [
    | inl absent ↦ (λ e h. ground arith, λ p h. ground arith)
    | inr (r, found) ↦
        let updated = update_row-found (update_data command now) s r found in
        (λ e h. ground arith, λ p h. ground arith)
  ]
