-- ===== src/Routes/Download/Passes.antt =====
-- src/sns_media_list/api/routes.py: what a pass over an iterator yields.
use sns_media_list.Errors.{AppError}
use sns_media_list.Media.Body.{Ending, finished, raised, truncated, joined}
use sns_media_list.Prelude.{
  ℕ, suc, ◌+◌, ◌≡◌, refl, inl, inr, ◌⊎◌, Option, List, [], ◌∷◌, ◌++◌, length, arith, ap,
  Option-cases, append_assoc, length-append,
}
use sns_media_list.Routes.Download.{
  Stop, at_end, at_truncation, at_await, at_yield, stop_of, Pass, sends, pass,
}
use sns_media_list.Routes.Reasons.{DownloadError}
use sns_media_list.Text.{Text}

-- A pass that stops where its iterator does has yielded all, and counted it.
abbrev pub IsThrough : ℕ → List Text → Ending → Pass → Stop → Type 0
IsThrough n chunks ending p at_end =
    (ending ≡ finished) × (p.sent ≡ chunks) × (p.bytes_streamed ≡ n + length (joined chunks))
IsThrough n chunks ending p (at_truncation e) =
    (ending ≡ truncated e) × (p.sent ≡ chunks) × (p.bytes_streamed ≡ n + length (joined chunks))
IsThrough n chunks ending p (at_await e) = Unit {0}
IsThrough n chunks ending p (at_yield e) = Unit {0}

-- What is yielded is a prefix of the chunks.
pub record IsPass (n : ℕ) (chunks : List Text) (ending : Ending) (p : Pass) : Type 0 where
  pub unsent : Text
  pub prefix : joined (p.sent) ++ unsent ≡ joined chunks
  pub through : IsThrough n chunks ending p (p.stop)

IsThrough-sends :
    (n : ℕ) (chunk : Text) (chunks : List Text) (ending : Ending) (p : Pass) (stop : Stop)
    → IsThrough (n + length chunk) chunks ending p stop
    → IsThrough n (chunk ∷ chunks) ending (sends chunk p) stop
IsThrough-sends n chunk chunks ending p at_end (e, s, b) =
    (e, ap (◌∷◌ chunk) s, omega (arith, b, length-append chunk (joined chunks)))
IsThrough-sends n chunk chunks ending p (at_truncation f) (e, s, b) =
    (e, ap (◌∷◌ chunk) s, omega (arith, b, length-append chunk (joined chunks)))
IsThrough-sends n chunk chunks ending p (at_await e) t = tt
IsThrough-sends n chunk chunks ending p (at_yield e) t = tt

IsPass-sends :
    (n : ℕ) (chunk : Text) (chunks : List Text) (ending : Ending) (p : Pass)
    → IsPass (n + length chunk) chunks ending p
    → IsPass n (chunk ∷ chunks) ending (sends chunk p)
IsPass-sends n chunk chunks ending p h = record {
  unsent = h.unsent;
  prefix = rw (append_assoc chunk (joined (p.sent)) (h.unsent), h.prefix) refl;
  through = IsThrough-sends n chunk chunks ending p (p.stop) (h.through);
}

at_ending :
    (n : ℕ) (ending : Ending) (p : Pass)
    → p.sent ≡ []
    → p.bytes_streamed ≡ n
    → IsThrough n [] ending p (stop_of ending)
at_ending n finished p s b = (refl, s, omega (arith, b))
at_ending n (raised e) p s b = tt
at_ending n (truncated e) p s b = (refl, s, omega (arith, b))

pub pass-IsPass :
    (interrupts : ℕ → Option DownloadError) (waits n : ℕ) (chunks : List Text) (ending : Ending)
    → IsPass n chunks ending (pass interrupts waits n chunks ending)
unfolding pass
pass-IsPass interrupts waits n [] ending = elim (Option-cases (interrupts waits)) [
  | inl none_raised ↦
      rw (none_raised, pass)
        (record {
          unsent = [];
          prefix = refl;
          through =
              at_ending n ending
                (record { sent = []; bytes_streamed = n; waits = suc waits; stop = stop_of ending })
                refl refl;
        })
  | inr (e, raises) ↦ rw (raises, pass) (record { unsent = []; prefix = refl; through = tt })
]
pass-IsPass interrupts waits n (chunk ∷ chunks) ending = elim (Option-cases (interrupts waits)) [
  | inr (e, raises) ↦
      rw (raises, pass) (record { unsent = joined (chunk ∷ chunks); prefix = refl; through = tt })
  | inl awaited ↦ elim (Option-cases (interrupts (suc waits))) [
    | inr (e, raises) ↦
        rw (awaited, raises, pass)
          (record {
            unsent = joined chunks;
            prefix = append_assoc chunk [] (joined chunks);
            through = tt;
          })
    | inl yielded ↦
        rw (awaited, yielded, pass)
          (IsPass-sends n chunk chunks ending _
            (pass-IsPass interrupts (suc (suc waits)) (n + length chunk) chunks ending))
  ]
]

pub Stop-cases :
    (stop : Stop)
    → (stop ≡ at_end)
      ⊎ (((e : DownloadError) × (stop ≡ at_await e))
          ⊎ (((e : DownloadError) × (stop ≡ at_yield e))
              ⊎ ((e : AppError) × (stop ≡ at_truncation e))))
Stop-cases at_end = inl refl
Stop-cases (at_await e) = inr (inl (e, refl))
Stop-cases (at_yield e) = inr (inr (inl (e, refl)))
Stop-cases (at_truncation e) = inr (inr (inr (e, refl)))
