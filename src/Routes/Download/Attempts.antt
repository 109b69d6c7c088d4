-- ===== src/Routes/Download/Attempts.antt =====
-- src/sns_media_list/api/routes.py: how often a download tries to resume.
use sns_media_list.Prelude.{
  ℕ, suc, ◌≡◌, ◌++◌, refl, inl, inr, Bool, true, false, Option, none, some, List, [], ◌∷◌, arith,
  Bool-cases, ◌+◌, if◌then◌else◌, ltb,
}
use sns_media_list.Routes.Download.{
  ResumeEvent, resume_attempted, resume_succeeded, resume_failed, failed, await_events, check_total,
}
use sns_media_list.Routes.Reasons.{
  DownloadError, app, media_truncated, cancelled, client_disconnected, generator_exit,
  timeout_error, incomplete_read, unexpected,
}

-- How often a resumption is tried.
abbrev pub attempts : List ResumeEvent → ℕ
attempts [] = 0
attempts (resume_attempted ∷ events) = suc (attempts events)
attempts (resume_succeeded ∷ events) = attempts events
attempts (resume_failed r ∷ events) = attempts events

pub attempts-append : (xs ys : List ResumeEvent) → attempts (xs ++ ys) ≡ attempts xs + attempts ys
attempts-append [] ys = omega arith
attempts-append (resume_attempted ∷ xs) ys = omega (arith, attempts-append xs ys)
attempts-append (resume_succeeded ∷ xs) ys = attempts-append xs ys
attempts-append (resume_failed r ∷ xs) ys = attempts-append xs ys

pub failed_attempts :
    (resumed : Bool) (e : DownloadError) → attempts (if resumed then failed e else []) ≡ 0
failed_attempts true e = refl
failed_attempts false e = refl

pub await_attempts : (resumed : Bool) (e : DownloadError) → attempts (await_events resumed e) ≡ 0
await_attempts resumed cancelled = refl
await_attempts resumed client_disconnected = refl
await_attempts resumed (app e) = failed_attempts resumed (app e)
await_attempts resumed (media_truncated e) = failed_attempts resumed (media_truncated e)
await_attempts resumed generator_exit = failed_attempts resumed generator_exit
await_attempts resumed timeout_error = failed_attempts resumed timeout_error
await_attempts resumed incomplete_read = failed_attempts resumed incomplete_read
await_attempts resumed unexpected = failed_attempts resumed unexpected

pub check_attempts :
    (resumed : Bool) (total : Option ℕ) (n : ℕ) → attempts ((check_total resumed total n).0) ≡ 0
unfolding check_total
check_attempts false total n = refl
check_attempts true none n = refl
check_attempts true (some total) n = elim (Bool-cases (ltb n total)) [
  | inl short ↦ rw (short, check_total) refl
  | inr enough ↦ elim (Bool-cases (ltb total n)) [
    | inl long ↦ rw (enough, long, check_total) refl
    | inr exact ↦ rw (enough, exact, check_total) refl
  ]
]
