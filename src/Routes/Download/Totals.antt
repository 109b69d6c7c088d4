-- ===== src/Routes/Download/Totals.antt =====
-- src/sns_media_list/api/routes.py: what a download has sent when it ends.
use sns_media_list.Media.Body.{Ending, finished, raised, truncated, joined}
use sns_media_list.Media.Chunks.Ends.{joined-append}
use sns_media_list.Prelude.{
  ℕ, ◌≡◌, inl, inr, refl, sym, Bool, true, false, Option, none, some, List, [], ◌∷◌, ◌++◌, length,
  drop, ltb, arith, ap, subst, Bool-cases, append_assoc, append_nil, length-append,
  drop-length-append,
}
use sns_media_list.Routes.Download.{Streamed, ResumeEvent, after_pass, check_total}
use sns_media_list.Routes.Reasons.{DownloadError}
use sns_media_list.Text.{Text}

-- What has been sent when nothing is raised, or an exception.
abbrev pub IsSentOf : Text → Option DownloadError → Text → Type 0
IsSentOf file none sent = sent ≡ file
IsSentOf file (some e) sent = (rest : Text) × (sent ++ rest ≡ file)

-- A download that ends, by what was sent before and by it.
pub record HasSent (file before : Text) (o : Option Streamed) : Type 0 where
  pub streamed : Streamed
  pub is : o ≡ some streamed
  pub holds : IsSentOf file (streamed.error) (before ++ joined (streamed.sent))

pub HasSent-after_pass :
    (file before : Text) (sent : List Text) (events : List ResumeEvent) (o : Option Streamed)
    → HasSent file (before ++ joined sent) o
    → HasSent file before (after_pass sent events o)
HasSent-after_pass file before sent events o h =
    let t = h.streamed in
    record {
      streamed = record t { sent = sent ++ t.sent; events = events ++ t.events };
      is = ap (after_pass sent events) (h.is);
      holds =
          subst (λ (s : Text). IsSentOf file (t.error) s) (regroup before sent (t.sent)) (h.holds);
    }
  where
    regroup :
        (b : Text) (s more : List Text) → (b ++ joined s) ++ joined more ≡ b ++ joined (s ++ more)
    regroup b s more = rw (joined-append s more, append_assoc b (joined s) (joined more)) refl

pub prefix_of :
    (before unread file sent unsent : Text) (chunks : List Text)
    → (before ++ joined chunks) ++ unread ≡ file
    → sent ++ unsent ≡ joined chunks
    → (before ++ sent) ++ (unsent ++ unread) ≡ file
prefix_of before unread file sent unsent chunks e p =
    let parts : (before ++ sent) ++ (unsent ++ unread) ≡ (before ++ (sent ++ unsent)) ++ unread =
      rw
        (
          append_assoc before sent (unsent ++ unread),
          append_assoc before (sent ++ unsent) unread,
          append_assoc sent unsent unread,
        )
        refl in
    rw (parts, p) e

pub prefix_whole : (s rest file : Text) → s ++ rest ≡ file → length s ≡ length file → s ≡ file
prefix_whole s [] file e l = rw (append_nil s) at e
prefix_whole s (c ∷ rest) file e l =
    absurd (omega (arith, l, ap length e, length-append s (c ∷ rest)))

pub rest_whole :
    (s rest file : Text) (n : ℕ) → s ++ rest ≡ file → length s ≡ n → s ++ drop n file ≡ file
rest_whole s rest file n e l =
    let left : drop n file ≡ rest = rw (sym l, sym e) (drop-length-append s rest) in rw left e

-- A body that is finished and was not resumed is as long as the file.
abbrev pub IsFull : Bool → Ending → ℕ → ℕ → Type 0
IsFull false finished count total = count ≡ total
IsFull false (raised e) count total = Unit {0}
IsFull false (truncated e) count total = Unit {0}
IsFull true ending count total = Unit {0}

-- The rounds that the loop still needs.
abbrev pub rounds : Bool → ℕ
rounds false = 2
rounds true = 1

pub check_total-IsSentOf :
    (resumed : Bool) (file sent rest : Text) (n : ℕ)
    → sent ++ rest ≡ file
    → length sent ≡ n
    → IsFull resumed finished n (length file)
    → IsSentOf file ((check_total resumed (some (length file)) n).1) sent
unfolding check_total
check_total-IsSentOf false file sent rest n e l full =
    prefix_whole sent rest file e (omega (arith, l, full))
check_total-IsSentOf true file sent rest n e l full = elim (Bool-cases (ltb n (length file))) [
  | inl short ↦ rw (short, check_total) (rest, e)
  | inr enough ↦ elim (Bool-cases (ltb (length file) n)) [
    | inl long ↦ rw (enough, long, check_total) (rest, e)
    | inr exact ↦
        rw (enough, exact, check_total) (prefix_whole sent rest file e (ground (arith, l)))
  ]
]
