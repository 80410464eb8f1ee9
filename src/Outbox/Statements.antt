-- ===== src/Outbox/Statements.antt =====
-- apps/worker/src/outbox/outbox-claim.repository.ts: the guards and the writes of its statements,
-- and the statements on the table.
use posts_media.Common.{
  ℕ, ◌+◌, ◌-◌, ◌*◌, String, Text, Bool, true, false, ◌&&◌, none, some, List, any, take, at_most,
  none_or_at_most, ltb, text_is, ◌==◌, string_eq,
}
use posts_media.Database.Table.{Table, where_key, count_is_one}
use posts_media.Schema.{ProcessingDispatch, DispatchStatus}

abbrev pub is_publishing : DispatchStatus → Bool
is_publishing DispatchStatus.publishing = true
is_publishing _ = false

abbrev pub is_published : DispatchStatus → Bool
is_published DispatchStatus.published = true
is_published _ = false

-- the WHERE of claimBatch
abbrev pub claimable : ℕ → ProcessingDispatch → Bool
claimable now d = elim d.status [
  | DispatchStatus.pending ↦ true
  | DispatchStatus.retry_wait ↦ none_or_at_most now d.next_attempt_at
  | DispatchStatus.publishing ↦ at_most now d.lease_expires_at
  | DispatchStatus.published ↦ false
  | DispatchStatus.dead ↦ false
]

abbrev pub claimed : ℕ → String → ℕ → ProcessingDispatch → ProcessingDispatch
claimed lease_seconds lease_token now d = record d {
  status = DispatchStatus.publishing;
  lease_token = some lease_token;
  lease_expires_at = some (now + lease_seconds * 1000);
}

-- the guard of the three marks
abbrev pub held_where : String → ProcessingDispatch → Bool
held_where lease_token d = is_publishing d.status && text_is lease_token d.lease_token

abbrev pub published_data : ℕ → ProcessingDispatch → ProcessingDispatch
published_data now d = record d {
  status = DispatchStatus.published;
  published_at = some now;
  lease_token = none;
  lease_expires_at = none;
  next_attempt_at = none;
  last_error_code = none;
  last_error_message = none;
}

abbrev pub retry_wait_data : ℕ → Text → Text → ProcessingDispatch → ProcessingDispatch
retry_wait_data next_attempt_at error_code error_message d = record d {
  status = DispatchStatus.retry_wait;
  publish_attempts = d.publish_attempts + 1;
  next_attempt_at = some next_attempt_at;
  lease_token = none;
  lease_expires_at = none;
  last_error_code = some (take 64 error_code);
  last_error_message = some (take 1000 error_message);
}

abbrev pub dead_data : Text → Text → ProcessingDispatch → ProcessingDispatch
dead_data error_code error_message d = record d {
  status = DispatchStatus.dead;
  publish_attempts = d.publish_attempts + 1;
  lease_token = none;
  lease_expires_at = none;
  last_error_code = some (take 64 error_code);
  last_error_message = some (take 1000 error_message);
}

-- `publishedAt < before`
abbrev pub published_before : ℕ → ProcessingDispatch → Bool
published_before before d =
    is_published d.status && elim d.published_at [ none ↦ false | some at ↦ ltb at before ]

module _ (T : Table String ProcessingDispatch) where
  -- `selected` are the ids that the query's ORDER BY, LIMIT and SKIP LOCKED leave of the candidates
  unfoldable pub claim_batch :
      (selected : List String) (lease_seconds : ℕ) (lease_token : String) (now : ℕ)
      → T.State
      → T.State
  claim_batch selected lease_seconds lease_token now s =
      (T.update_many (λ id d. any (λ i. i == id) selected && claimable now d)
        (claimed lease_seconds lease_token now) s).0

  unfoldable pub mark_published : (id lease_token : String) (now : ℕ) → T.State → T.State × Bool
  mark_published id lease_token now s =
      let (s', count) =
        T.update_many (where_key id (held_where lease_token)) (published_data now) s in
      (s', count_is_one count)

  unfoldable pub mark_retry_wait :
      (id lease_token : String) (next_attempt_at : ℕ) (error_code error_message : Text)
      → T.State
      → T.State × Bool
  mark_retry_wait id lease_token next_attempt_at error_code error_message s =
      let (s', count) =
        T.update_many (where_key id (held_where lease_token))
          (retry_wait_data next_attempt_at error_code error_message) s in
      (s', count_is_one count)

  unfoldable pub mark_dead :
      (id lease_token : String) (error_code error_message : Text) → T.State → T.State × Bool
  mark_dead id lease_token error_code error_message s =
      let (s', count) =
        T.update_many (where_key id (held_where lease_token)) (dead_data error_code error_message)
          s in
      (s', count_is_one count)

  unfoldable pub delete_published_before : ℕ → T.State → T.State × ℕ
  delete_published_before before s = T.delete_many (λ id d. published_before before d) s

  -- OutboxCleanupService.runOnce; a date before 1970 is no date of a row
  unfoldable pub cleanup : (published_retention_days now : ℕ) → T.State → T.State × ℕ
  cleanup published_retention_days now s =
      delete_published_before (now - published_retention_days * 24 * 60 * 60 * 1000) s
