-- ===== src/Urls/Paths.antt =====
-- src/sns_media_list/url_validation.py: hosts, paths and queries in canonical form.
use sns_media_list.Models.{instagram, x}
use sns_media_list.Prelude.{
  ◌≡◌, refl, sym, inl, inr, true, false, some, List, [], ◌∷◌, ◌++◌, all, ◌==◌, arith, ap, subst,
  Bool-cases, List-cases,
}
use sns_media_list.Text.{Text, codes, text_eq, text_eq→≡, one_of, lower, to_lower, split, rstrip}
use sns_media_list.Urls.{
  hosts_of, platform_for_host, is_tracking_key, untracked, trim_slashes, filled,
}

pub untracked_twice : (query : List (Text × Text)) → untracked (untracked query) ≡ untracked query
unfolding untracked
untracked_twice [] = refl
untracked_twice ((key, value) ∷ query) = elim (Bool-cases (is_tracking_key key)) [
  | inl tracking ↦ rw (tracking, untracked) (untracked_twice query)
  | inr other ↦ rw (other, other, untracked) (ap (◌∷◌ (key, value)) (untracked_twice query))
]

host_fixed :
    (host hostname : Text)
    → rstrip (λ c. c == b'.') (lower host) ≡ host
    → text_eq hostname host ≡ true
    → rstrip (λ c. c == b'.') (lower hostname) ≡ hostname
host_fixed host hostname fixed same =
    subst (λ (h : Text). rstrip (λ c. c == b'.') (lower h) ≡ h) (sym (text_eq→≡ hostname host same))
      fixed

x_host_one_of :
    (hostname : Text) → platform_for_host hostname ≡ some x → one_of (hosts_of x) hostname ≡ true
unfolding platform_for_host
x_host_one_of hostname e = elim (Bool-cases (one_of (hosts_of instagram) hostname)) [
  | inl instagram_host ↦ absurd (ground arith)
  | inr other ↦ elim (Bool-cases (one_of (hosts_of x) hostname)) [
    | inl found ↦ found
    | inr missing ↦ absurd (ground arith)
  ]
]

none_of :
    (host hostname : Text) (hosts : List Text)
    → text_eq hostname host ≡ false
    → one_of hosts hostname ≡ false
    → one_of (host ∷ hosts) hostname ≡ false
unfolding one_of
none_of host hostname hosts h k = ground (arith, h, k)

-- A hostname of X is written as `hostname_of` writes it.
pub x_host_fixed :
    (hostname : Text)
    → platform_for_host hostname ≡ some x
    → rstrip (λ c. c == b'.') (lower hostname) ≡ hostname
unfolding one_of hosts_of rstrip to_lower
x_host_fixed hostname e = elim (Bool-cases (text_eq hostname (codes "x.com"))) [
  | inl same ↦ host_fixed (codes "x.com") hostname refl same
  | inr a ↦ elim (Bool-cases (text_eq hostname (codes "www.x.com"))) [
    | inl same ↦ host_fixed (codes "www.x.com") hostname refl same
    | inr b ↦ elim (Bool-cases (text_eq hostname (codes "twitter.com"))) [
      | inl same ↦ host_fixed (codes "twitter.com") hostname refl same
      | inr c ↦ elim (Bool-cases (text_eq hostname (codes "www.twitter.com"))) [
        | inl same ↦ host_fixed (codes "www.twitter.com") hostname refl same
        | inr d ↦
            let missing : one_of (hosts_of x) hostname ≡ false =
              none_of (codes "x.com") hostname
                (codes "www.x.com" ∷ codes "twitter.com" ∷ codes "www.twitter.com" ∷ []) a
                (none_of (codes "www.x.com") hostname
                  (codes "twitter.com" ∷ codes "www.twitter.com" ∷ []) b
                  (none_of (codes "twitter.com") hostname (codes "www.twitter.com" ∷ []) c
                    (none_of (codes "www.twitter.com") hostname [] d refl))) in
            let found = x_host_one_of hostname e in absurd (cc (found, missing))
      ]
    ]
  ]
]

abbrev blanks : Text → List Text
blanks [] = []
blanks (c ∷ s) = [] ∷ blanks s

split_part : (s : Text) → (part : Text) × (parts : List Text) × (split b'/' s ≡ part ∷ parts)
unfolding split
split_part [] = ([], [], refl)
split_part (c ∷ s) =
    let (part, parts, e) = split_part s in
    elim (Bool-cases (c == b'/')) [
      | inl slash ↦ ([], split b'/' s, rw (slash, split) refl)
      | inr other ↦ (c ∷ part, parts, rw (other, e, split) refl)
    ]

split-slashes :
    (s slashes : Text)
    → all (λ c. c == b'/') slashes ≡ true
    → split b'/' (s ++ slashes) ≡ split b'/' s ++ blanks slashes
unfolding split
split-slashes [] [] h = refl
split-slashes [] (c ∷ slashes) h = let ih = split-slashes [] slashes in ground (arith, ih)
split-slashes (c ∷ s) slashes h =
    let ih = split-slashes s slashes h in
    let (part, parts, e) = split_part s in
    elim (Bool-cases (c == b'/')) [
      | inl slash ↦ rw (slash, ih, split) refl
      | inr other ↦ rw (other, ih, e, split) refl
    ]

filled-blanks :
    (parts : List Text) (slashes : Text) → filled (parts ++ blanks slashes) ≡ filled parts
unfolding filled
filled-blanks [] [] = refl
filled-blanks [] (c ∷ slashes) = filled-blanks [] slashes
filled-blanks ([] ∷ parts) slashes = filled-blanks parts slashes
filled-blanks ((c ∷ part) ∷ parts) slashes = ap (◌∷◌ (c ∷ part)) (filled-blanks parts slashes)

trim_slashes-parts :
    (path : Text)
    → (slashes : Text) × (path ≡ trim_slashes path ++ slashes)
      × (all (λ c. c == b'/') slashes ≡ true)
unfolding rstrip
trim_slashes-parts [] = ([], refl, refl)
trim_slashes-parts (c ∷ path) =
    let (slashes, e, h) = trim_slashes-parts path in
    elim (List-cases (trim_slashes path)) [
      | inl empty ↦
          let all_slashes : path ≡ slashes = rw empty at e in
          elim (Bool-cases (c == b'/')) [
            | inl slash ↦ (
              c ∷ slashes,
              rw (empty, slash, rstrip) (ap (◌∷◌ c) all_slashes),
              ground (arith, slash, h),
            )
            | inr other ↦ (slashes, rw (empty, other, rstrip) (ap (◌∷◌ c) all_slashes), h)
          ]
      | inr (b, t, starts) ↦
          let whole : path ≡ (b ∷ t) ++ slashes = rw starts at e in
          (slashes, rw (starts, rstrip) (ap (◌∷◌ c) whole), h)
    ]

-- The parts of a path are those of its canonical form.
pub canonical_parts :
    (path : Text) → filled (split b'/' (trim_slashes path ++ codes "/")) ≡ filled (split b'/' path)
canonical_parts path =
    let trimmed = trim_slashes path in
    let (slashes, e, h) = trim_slashes-parts path in
    let one = split-slashes trimmed (codes "/") refl in
    let many = split-slashes trimmed slashes h in
    let left : filled (split b'/' (trimmed ++ codes "/")) ≡ filled (split b'/' trimmed) =
      rw one (filled-blanks (split b'/' trimmed) (codes "/")) in
    let right : filled (split b'/' (trimmed ++ slashes)) ≡ filled (split b'/' trimmed) =
      rw many (filled-blanks (split b'/' trimmed) slashes) in
    rw left (
      subst (λ (p : Text). filled (split b'/' trimmed) ≡ filled (split b'/' p)) (sym e) (sym right))

trim_one : (s : Text) → trim_slashes (s ++ codes "/") ≡ trim_slashes s
unfolding rstrip
trim_one [] = refl
trim_one (c ∷ s) = let ih = trim_one s in rw (ih, rstrip) refl

trim_twice : (s : Text) → trim_slashes (trim_slashes s) ≡ trim_slashes s
unfolding rstrip
trim_twice [] = refl
trim_twice (c ∷ s) =
    let ih = trim_twice s in
    elim (List-cases (trim_slashes s)) [
      | inl empty ↦ elim (Bool-cases (c == b'/')) [
        | inl slash ↦ rw (empty, slash, rstrip) refl
        | inr other ↦ rw (empty, other, rstrip) (rw (other, rstrip) refl)
      ]
      | inr (b, t, starts) ↦
          let kept : trim_slashes (b ∷ t) ≡ b ∷ t = rw starts at ih in
          rw (starts, rstrip) (rw (kept, rstrip) refl)
    ]

-- The path of a canonical URL, with its one slash at the end, is canonical.
pub trim_canonical :
    (path : Text) → trim_slashes (trim_slashes path ++ codes "/") ≡ trim_slashes path
trim_canonical path = rw (trim_one (trim_slashes path)) (trim_twice path)
