-- ===== src/Examples/Posts.antt =====
-- A post with one image that is created, and media that are added to it.
use posts_media.Common.{String, true, some, [], ◌∷◌, string_eq}
use posts_media.Domain.Json.{Json, null}
use posts_media.Domain.Result.{Reply, replied}
use posts_media.Database.Table.{Table}
use posts_media.Database.Rows.{rows_table}
use posts_media.Storage.Objects.{listed_storage}
use posts_media.Idempotency.{IdempotencyRequest}
use posts_media.Idempotency.Service.{quiet}
use posts_media.Posts.{Post}
use posts_media.Posts.Requests.{Site, Service, Course}
use posts_media.Posts.Create.{CreatePostWithMediaCommand}
use posts_media.Posts.AddMedia.{AddPostMediaCommand}
use posts_media.Examples.World.{tables, db_empty, buckets}
use posts_media.Examples.Uploads.{limits, tools, file}

abbrev pub posts : Table String Post
posts = rows_table

abbrev pub requests : Table String IdempotencyRequest
requests = rows_table

abbrev pub SiteHere : Type 0
SiteHere = Site tables posts requests listed_storage

abbrev pub CourseHere : Type 0
CourseHere = Course tables posts requests listed_storage

abbrev pub empty_site : SiteHere
empty_site = record { posts = []; db = db_empty; requests = []; objects = [] }

abbrev pub service : Service
service = record {
  idempotency = record { ttl_hours = 24; lease_seconds = 900 };
  limits = limits;
  tools = tools;
  buckets = buckets;
  digest = λ j. "f1";
  to_iso_string = λ n. "2025-01-01T00:00:00.000Z";
}

abbrev pub course : CourseHere
course = record {
  fuel = 1;
  env = quiet (λ i. 1000) (λ i. "t1");
  meanwhile = λ s. s;
  post_id = "p1";
  media_ids = λ n. "m1";
  dispatch_ids = λ n. "d1";
  now = 1000;
  done = 1100;
  commits = true;
}

abbrev pub creation : CreatePostWithMediaCommand
creation = record {
  idempotency_key = some "key-0001";
  title = "A title";
  content = "Some content";
  files = file "cat.png" ∷ [];
  request_id = "r1";
}

abbrev pub body_of : Reply Json → Json
body_of (replied body) = body
body_of r = null

-- the request adds another file, and one that is refused
abbrev pub addition : AddPostMediaCommand
addition = record {
  post_id = "p1";
  idempotency_key = some "key-0002";
  files = file "cat.png" ∷ file "cat.png" ∷ [];
  request_id = "r2";
}

abbrev pub later_course : CourseHere
later_course = record course { media_ids = λ n. "m2"; dispatch_ids = λ n. "d2" }
