-- ===== src/Limits/Attempts/Posts.antt =====
-- When `AttemptLimiter` (src/sns_media_list/api/limits.py) admits an MCP post.
use sns_media_list.Prelude.{
  ℕ, ◌-◌, ◌≡◌, refl, Bool, true, false, some, List, arith, if◌then◌else◌, ltb, not,
}
use sns_media_list.Errors.{Result, ok, err}
use sns_media_list.Limits.Attempts.{
  McpPostBucket, AttemptLimiter, prune_attempts, purge_mcp, purge_expired, record_attempt,
  acquire_mcp_post, post_attempt, retry_seconds, rate_limited,
}
use sns_media_list.Limits.Attempts.Windows.{recent, length-prune}
use sns_media_list.Limits.Attempts.Invariant.{IsMcp, IsValid}

abbrev pub posts : Bool → McpPostBucket → List ℕ
posts true b = b.cancellations
posts false b = b.regular

abbrev pub post_limit : Bool → AttemptLimiter → ℕ
post_limit true l = 1
post_limit false l = l.extraction_limit - 1

-- what one MCP post does to the limiter
pub record IsPost (cancellation : Bool) (now : ℕ) (l : AttemptLimiter) (b : McpPostBucket)
    (l' : AttemptLimiter) (r : Result (Unit {0})) : Type 0 where
  pub decision : r ≡ (
      if ltb (recent l.window now (posts cancellation b)) (post_limit cancellation l)
      then ok tt
      else err (
          rate_limited "Too many MCP requests were attempted recently."
            (retry_seconds l.window now (prune_attempts l.window now (posts cancellation b)))))
  pub bucket :
      (b' : McpPostBucket) × (l'.mcp_post_attempts ≡ some b')
      × (posts (not cancellation) b' ≡ prune_attempts l.window now (posts (not cancellation) b))

-- Where posts are accounted for, a post is always decided, and on its own class alone: a cancellation
-- is admitted exactly when no cancellation is less than a window old, however many other posts there
-- were, and any other post exactly when fewer than `extraction_limit - 1` others are; the record of the
-- other class only loses what is out of the window.
pub acquire_mcp_post-IsPost :
    (cancellation : Bool) (a now : ℕ) (l : AttemptLimiter) (b : McpPostBucket)
    → IsValid a l
    → l.mcp_post_attempts ≡ some b
    → (l' : AttemptLimiter) × (r : Result (Unit {0})) × (acquire_mcp_post cancellation now l
        ≡ some (l', r))
      × IsPost cancellation now l b l' r
unfolding acquire_mcp_post purge_expired purge_mcp post_attempt record_attempt
acquire_mcp_post-IsPost true a now l b v e =
    let m : IsMcp l.extraction_limit a (some b) = rw e at v.mcp in
    let p = purge_expired now l in
    let q = prune_attempts l.window now in
    let c =
      record_attempt "Too many MCP requests were attempted recently." 1 l.window now
        (q b.cancellations) in
    let b' : McpPostBucket = record { regular = q b.regular; cancellations = c.0 } in
    (
      record p { mcp_post_attempts = some b' },
      c.1,
      rw e refl,
      record {
        decision = ground (arith, length-prune l.window now 0 b.cancellations m.2.ordered);
        bucket = (b', refl, refl);
      },
    )
acquire_mcp_post-IsPost false a now l b v e =
    let m : IsMcp l.extraction_limit a (some b) = rw e at v.mcp in
    let p = purge_expired now l in
    let q = prune_attempts l.window now in
    let c =
      record_attempt "Too many MCP requests were attempted recently." (l.extraction_limit - 1)
        l.window now (q b.regular) in
    let b' : McpPostBucket = record { regular = c.0; cancellations = q b.cancellations } in
    (
      record p { mcp_post_attempts = some b' },
      c.1,
      rw e refl,
      record {
        decision = ground (arith, length-prune l.window now 0 b.regular m.1.ordered);
        bucket = (b', refl, refl);
      },
    )
