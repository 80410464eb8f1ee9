-- ===== src/Posts.antt =====
-- libs/posts/src/application/posts.service.ts over libs/posts/src/repositories/posts.repository.ts.
-- The rows are those of `Post`; the media that a read includes are left out.
pub mod Listing
pub mod Presenter
pub mod Promotion
pub mod Requests
pub mod Create
pub mod AddMedia
pub mod Service
use posts_media.Common.{
  ℕ, String, Bool, true, false, Option, none, some, or_else, is_some, ◌==◌, string_eq,
  if◌then◌else◌,
}
use posts_media.Domain.Errors.{DomainError, ErrorCode}
use posts_media.Domain.Result.{Result, ok, err}
use posts_media.Database.Table.{Table, where_key, count_is_one}

pub record Post : Type 0 where
  pub title : String
  pub content : String
  pub created_at : ℕ
  pub updated_at : ℕ
  pub deleted_at : Option ℕ

pub record UpdatePostCommand : Type 0 where
  pub title : Option String
  pub content : Option String

abbrev pub post_not_found : DomainError
post_not_found = record {
  code = ErrorCode.post_not_found;
  message = "The requested post does not exist.";
  http_status = 404;
  details = none;
}

abbrev pub post_soft_deleted : DomainError
post_soft_deleted = record {
  code = ErrorCode.post_soft_deleted;
  message = "The requested post has been deleted.";
  http_status = 409;
  details = none;
}

-- the data of the three updates; Prisma sets `updatedAt`
abbrev pub update_data : UpdatePostCommand → ℕ → Post → Post
update_data c now p = record p {
  title = or_else c.title p.title;
  content = or_else c.content p.content;
  updated_at = now;
}

abbrev pub delete_data : ℕ → Post → Post
delete_data now p = record p { deleted_at = some now; updated_at = now }

abbrev pub restore_data : ℕ → Post → Post
restore_data now p = record p { deleted_at = none; updated_at = now }

module _ (T : Table String Post) where
  -- post.update, with the row that it returns; P2025, which is caught, where there is none
  unfoldable pub update_row : String → (Post → Post) → T.State → T.State × Result Post
  update_row id f s =
      let (s', count) = T.update_many (where_key id (λ p. true)) f s in
      (
        s',
        (if count_is_one count
            then elim (T.find id s') [ none ↦ err post_not_found | some p ↦ ok p ]
            else err post_not_found),
      )

  unfoldable pub get_by_id : String → (include_deleted : Bool) → T.State → Result Post
  get_by_id id include_deleted s = elim (T.find id s) [
    | none ↦ err post_not_found
    | some p ↦
        if include_deleted
        then ok p
        else if is_some p.deleted_at
        then err post_soft_deleted
        else ok p
  ]

  -- `meanwhile` is what other requests do between the read and the write
  unfoldable pub update :
      (meanwhile : T.State → T.State) (id : String) (command : UpdatePostCommand) (now : ℕ)
      → T.State
      → T.State × Result Post
  update meanwhile id command now s = elim (T.find id s) [
    | none ↦ (s, err post_not_found)
    | some p ↦
        let updated = update_row id (update_data command now) (meanwhile s) in
        if is_some p.deleted_at then (s, err post_soft_deleted) else updated
  ]

  unfoldable pub soft_delete :
      (meanwhile : T.State → T.State) (id : String) (now : ℕ) → T.State → T.State × Result Post
  soft_delete meanwhile id now s = elim (T.find id s) [
    | none ↦ (s, err post_not_found)
    | some p ↦
        let deleted = update_row id (delete_data now) (meanwhile s) in
        if is_some p.deleted_at then (s, ok p) else deleted
  ]

  unfoldable pub restore :
      (meanwhile : T.State → T.State) (id : String) (now : ℕ) → T.State → T.State × Result Post
  restore meanwhile id now s = elim (T.find id s) [
    | none ↦ (s, err post_not_found)
    | some p ↦
        let restored = update_row id (restore_data now) (meanwhile s) in
        if is_some p.deleted_at then restored else (s, ok p)
  ]
