-- ===== src/Text.antt =====
-- Python's `str` and `bytes` where the code walks them: lists of code points, or of bytes.
use Prim.Native.Char.{code}
use Prim.Native.String.{String}
use sns_media_list.Prelude.{
  ℕ, ◌+◌, ◌-◌, ◌*◌, ◌≡◌, refl, Bool, true, false, ◌&&◌, ◌||◌, not, Option, none, some, List, [],
  ◌∷◌, map, if◌then◌else◌, leb, ◌==◌, arith, ◌↔◌,
}

abbrev pub Text : Type 0
Text = List ℕ

-- the code points of a literal
abbrev pub codes : String → Text
codes String.[] = []
codes (String.◌∷◌ c s) = code c ∷ codes s

-- s == t
unfoldable pub text_eq : Text → Text → Bool
text_eq [] [] = true
text_eq (a ∷ s) (b ∷ t) = a == b && text_eq s t
text_eq _ _ = false

pub text_eq→≡ : (s t : Text) → text_eq s t ≡ true → s ≡ t
unfolding text_eq
text_eq→≡ [] [] h = refl
text_eq→≡ (a ∷ s) (b ∷ t) h = ground (arith, text_eq→≡ s t)
text_eq→≡ [] (b ∷ t) h = cc
text_eq→≡ (a ∷ s) [] h = cc

pub text_eq_refl : (s : Text) → text_eq s s ≡ true
unfolding text_eq
text_eq_refl [] = refl
text_eq_refl (a ∷ s) = ground (arith, text_eq_refl s)

pub text_eq_iff : (s t : Text) → (text_eq s t ≡ true) ↔ (s ≡ t)
text_eq_iff s t = (text_eq→≡ s t, λ e. rw e (text_eq_refl t))

-- s in (…), for a collection of texts
unfoldable pub one_of : List Text → Text → Bool
unfolding text_eq
one_of [] s = false
one_of (t ∷ ts) s = text_eq s t || one_of ts s

-- s.startswith(p)
unfoldable pub starts_with : Text → Text → Bool
starts_with s [] = true
starts_with [] (b ∷ p) = false
starts_with (a ∷ s) (b ∷ p) = a == b && starts_with s p

-- part in text
unfoldable pub contains : Text → Text → Bool
unfolding starts_with text_eq
contains part [] = text_eq part []
contains part (c ∷ s) = starts_with (c ∷ s) part || contains part s

-- s.endswith(p)
unfoldable pub ends_with : Text → Text → Bool
unfolding text_eq
ends_with [] p = text_eq [] p
ends_with (a ∷ s) p = text_eq (a ∷ s) p || ends_with s p

-- the part before the first `c`, and the part after it if there is a `c`
unfoldable pub partition : ℕ → Text → Text × Option Text
partition c [] = ([], none)
partition c (a ∷ s) =
    let (before, after) = partition c s in if a == c then ([], some s) else (a ∷ before, after)

-- s.split(c, 1)[0]
abbrev pub before : ℕ → Text → Text
before c s = (partition c s).0

-- the parts between the `c`s, one at least
unfoldable pub split : ℕ → Text → List Text
split c [] = [] ∷ []
split c (a ∷ s) =
    let parts = split c s in
    if a == c then [] ∷ parts else elim parts [ [] ↦ (a ∷ []) ∷ [] | p ∷ ps ↦ (a ∷ p) ∷ ps ]

-- s.lstrip() and s.rstrip(), by a test of the characters that go
unfoldable pub lstrip : (ℕ → Bool) → Text → Text
lstrip p [] = []
lstrip p (a ∷ s) = let rest = lstrip p s in if p a then rest else a ∷ s

unfoldable pub rstrip : (ℕ → Bool) → Text → Text
rstrip p [] = []
rstrip p (a ∷ s) = elim (rstrip p s) [ [] ↦ if p a then [] else a ∷ [] | b ∷ t ↦ a ∷ b ∷ t ]

unfoldable pub strip : (ℕ → Bool) → Text → Text
unfolding lstrip rstrip
strip p s = rstrip p (lstrip p s)

-- the characters that `strip()` takes off: `str.isspace`
unfoldable pub is_space : ℕ → Bool
is_space c =
    leb 9 c && leb c 13
    || leb 28 c && leb c 32
    || c == 0x85
    || c == 0xa0
    || c == 0x1680
    || leb 0x2000 c && leb c 0x200a
    || c == 0x2028
    || c == 0x2029
    || c == 0x202f
    || c == 0x205f
    || c == 0x3000

abbrev pub is_digit : ℕ → Bool
is_digit c = leb 0x30 c && leb c 0x39

abbrev pub is_upper : ℕ → Bool
is_upper c = leb 0x41 c && leb c 0x5a

abbrev pub is_lower : ℕ → Bool
is_lower c = leb 0x61 c && leb c 0x7a

-- c.lower() on a character of ISO-8859-1, the characters of decoded headers among them
unfoldable pub to_lower : ℕ → ℕ
to_lower c = if is_upper c || leb 0xc0 c && leb c 0xde && not (c == 0xd7) then c + 32 else c

abbrev pub lower : Text → Text
lower = map to_lower

-- int(s) of decimal digits, from the value of those read before
unfoldable pub decimal : ℕ → Text → ℕ
decimal n [] = n
decimal n (c ∷ s) = decimal (n * 10 + (c - 0x30)) s

strip_test : strip is_space (codes "  a b ") ≡ codes "a b"
unfolding strip is_space
strip_test = refl

split_test : split b',' (codes "a,,b") ≡ codes "a" ∷ [] ∷ codes "b" ∷ []
unfolding split
split_test = refl
