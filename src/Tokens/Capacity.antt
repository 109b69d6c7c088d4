-- ===== src/Tokens/Capacity.antt =====
-- `TokenStore` (src/sns_media_list/security/tokens.py) never holds more than its capacity.
use sns_media_list.Prelude.{
  ℕ, suc, ◌+◌, ◌≤◌, ◌≡◌, refl, String, none, List, [], ◌∷◌, length, ltb, arith, Bool-cases, inl,
  inr,
}
use sns_media_list.Dict
use sns_media_list.Dict.{
  Dict, Distinct, set-Distinct, remove-Distinct, length-remove_le, length-set_le,
}
use sns_media_list.Models.{MediaTokenDraft, PrivateMediaRecord}
use sns_media_list.Tokens.{
  TokenStore, init, live_records, purge_expired, issue, store_all, reserve, delete,
}

pub record IsValid (s : TokenStore) : Type 0 where
  pub distinct : Distinct s.records
  pub bounded : length s.records ≤ s.capacity

pub length-live_le :
    (now : ℕ) (d : Dict PrivateMediaRecord) → length (live_records now d) ≤ length d
unfolding live_records
length-live_le now [] = omega arith
length-live_le now ((t, r) ∷ d) = ground (arith, length-live_le now d)

pub live-none :
    (now : ℕ) (j : String) (d : Dict PrivateMediaRecord)
    → Dict.get j d ≡ none
    → Dict.get j (live_records now d) ≡ none
unfolding live_records Dict.get
live-none now j [] e = refl
live-none now j ((t, r) ∷ d) e = ground (arith, live-none now j d)

pub live-Distinct :
    (now : ℕ) (d : Dict PrivateMediaRecord) → Distinct d → Distinct (live_records now d)
unfolding live_records
live-Distinct now [] u = tt
live-Distinct now ((t, r) ∷ d) u = ground (arith, live-Distinct now d u.1, live-none now t d u.0)

length-issue :
    (tokens : ℕ → String) (i expires_at : ℕ) (drafts : List MediaTokenDraft)
    → length (issue tokens i expires_at drafts) ≡ length drafts
unfolding issue
length-issue tokens i expires_at [] = refl
length-issue tokens i expires_at (d ∷ drafts) =
    omega (arith, length-issue tokens (suc i) expires_at drafts)

length-store_all_le :
    (rs : List PrivateMediaRecord) (d : Dict PrivateMediaRecord)
    → length (store_all rs d) ≤ length d + length rs
unfolding store_all
length-store_all_le [] d = omega arith
length-store_all_le (r ∷ rs) d =
    omega (arith, length-store_all_le rs (Dict.set r.token r d), length-set_le r.token r d)

store_all-Distinct :
    (rs : List PrivateMediaRecord) (d : Dict PrivateMediaRecord)
    → Distinct d
    → Distinct (store_all rs d)
unfolding store_all
store_all-Distinct [] d u = u
store_all-Distinct (r ∷ rs) d u =
    store_all-Distinct rs (Dict.set r.token r d) (set-Distinct r.token r d u)

reserve-IsValid :
    (tokens : ℕ → String) (drafts : List MediaTokenDraft) (purged now : ℕ) (s : TokenStore)
    → IsValid s
    → IsValid (reserve tokens drafts purged now s).0
unfolding reserve
reserve-IsValid tokens drafts purged now s v =
    let d = live_records purged s.records in
    let rs = issue tokens 0 (now + s.ttl) drafts in
    elim (Bool-cases (ltb s.capacity (length d + length drafts))) [
      | inl e ↦ rw e (record {
        distinct = live-Distinct purged s.records v.distinct;
        bounded = omega (arith, length-live_le purged s.records, v.bounded);
      })
      | inr e ↦ rw e (record {
        distinct = store_all-Distinct rs d (live-Distinct purged s.records v.distinct);
        bounded =
            ground (arith, length-store_all_le rs d, length-issue tokens 0 (now + s.ttl) drafts);
      })
    ]

-- An operation that changes the store. The clock and the source of tokens go with the call.
pub data Call : Type 0 where
  reserves : (ℕ → String) → List MediaTokenDraft → ℕ → ℕ → Call
  deletes : String → Call
  purges : ℕ → Call

abbrev pub after : Call → TokenStore → TokenStore
after (reserves tokens drafts purged now) s = (reserve tokens drafts purged now s).0
after (deletes token) s = delete token s
after (purges now) s = purge_expired now s

abbrev pub run : List Call → TokenStore → TokenStore
run [] s = s
run (c ∷ cs) s = run cs (after c s)

after-IsValid : (c : Call) (s : TokenStore) → IsValid s → IsValid (after c s)
after-IsValid (reserves tokens drafts purged now) s v = reserve-IsValid tokens drafts purged now s v
after-IsValid (deletes token) s v =
    unfold delete in
    record {
      distinct = remove-Distinct token s.records v.distinct;
      bounded = omega (arith, length-remove_le token s.records, v.bounded);
    }
after-IsValid (purges now) s v =
    unfold purge_expired in
    record {
      distinct = live-Distinct now s.records v.distinct;
      bounded = omega (arith, length-live_le now s.records, v.bounded);
    }

run-IsValid : (cs : List Call) (s : TokenStore) → IsValid s → IsValid (run cs s)
run-IsValid [] s v = v
run-IsValid (c ∷ cs) s v = run-IsValid cs (after c s) (after-IsValid c s v)

-- After any reservations, deletions and purges of a new store, whatever the clock reads and even if
-- tokens repeat, its tokens are distinct and no more than its capacity.
pub tokens_run-IsValid : (capacity ttl : ℕ) (cs : List Call) → IsValid (run cs (init capacity ttl))
tokens_run-IsValid capacity ttl cs =
    run-IsValid cs (init capacity ttl) (record { distinct = tt; bounded = omega arith })
