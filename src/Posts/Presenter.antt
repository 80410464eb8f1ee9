-- ===== src/Posts/Presenter.antt =====
-- libs/posts/src/presenters/post.presenter.ts: the post that a response shows.
use Prim.Native.String.{◌++◌}
use posts_media.Common.{ℕ, String, Option, none, some, List, map, length}
use posts_media.Domain.Texts.{status_text, aggregate_text}
use posts_media.Domain.Aggregate.{calculate_post_aggregate_status}
use posts_media.Domain.Json.{Json, num, str, arr, obj, end, field, items, str_or_null}
use posts_media.Queues.Payload.{media_type_text}
use posts_media.Schema.{Media}
use posts_media.Posts.{Post}

pub record MediaSummaryDto : Type 0 where
  pub id : String
  pub sort_order : ℕ
  pub media_type : String
  pub processing_status : String
  pub progress : ℕ

pub record PostResponseDto : Type 0 where
  pub id : String
  pub title : String
  pub content : String
  pub created_at : String
  pub updated_at : String
  pub deleted_at : Option String
  pub aggregate_status : String
  pub media_count : ℕ
  pub media : List MediaSummaryDto
  -- `links.self`
  pub self : String

-- a row of `Media` with its id
pub record MediaRow : Type 0 where
  pub id : String
  pub row : Media

abbrev pub present_media_summary : MediaRow → MediaSummaryDto
present_media_summary m = record {
  id = m.id;
  sort_order = m.row.sort_order;
  media_type = media_type_text m.row.media_type;
  processing_status = status_text m.row.processing_status;
  progress = m.row.progress;
}

abbrev date_or_none : (ℕ → String) → Option ℕ → Option String
date_or_none to_iso_string none = none
date_or_none to_iso_string (some t) = some (to_iso_string t)

-- `toISOString` is an argument
unfoldable pub present_post :
    (to_iso_string : ℕ → String) → String → Post → List MediaRow → PostResponseDto
present_post to_iso_string id p media = record {
  id = id;
  title = p.title;
  content = p.content;
  created_at = to_iso_string p.created_at;
  updated_at = to_iso_string p.updated_at;
  deleted_at = date_or_none to_iso_string p.deleted_at;
  aggregate_status =
      aggregate_text (calculate_post_aggregate_status (map (λ m. m.row.processing_status) media));
  media_count = length media;
  media = map present_media_summary media;
  self = "/api/posts/" ++ id;
}

abbrev summary_json : MediaSummaryDto → Json
summary_json s = obj (
    field "id" (str s.id) (
      field "sortOrder" (num s.sort_order) (
        field "mediaType" (str s.media_type) (
          field "processingStatus" (str s.processing_status)
            (field "progress" (num s.progress) end)))))

unfoldable pub post_json : PostResponseDto → Json
post_json d = obj (
    field "id" (str d.id) (
      field "title" (str d.title) (
        field "content" (str d.content) (
          field "createdAt" (str d.created_at) (
            field "updatedAt" (str d.updated_at) (
              field "deletedAt" (str_or_null d.deleted_at) (
                field "aggregateStatus" (str d.aggregate_status) (
                  field "mediaCount" (num d.media_count) (
                    field "media" (arr (items summary_json d.media))
                      (field "links" (obj (field "self" (str d.self) end)) end))))))))))
