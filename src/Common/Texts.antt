-- ===== src/Common/Texts.antt =====
-- Texts as lists of code points.
use Prim.Native.Nat.{ℕ}
use Prim.Native.Char.{code}
use Prim.Native.String.{String}
use mathlib.Core.Bool.{Bool, ◌&&◌, ◌||◌}
use mathlib.Core.List.{List, [], ◌∷◌}
use posts_media.Common.Tests.{leb, nat_beq, if◌then◌else◌}
pub use text.Mathlib.TextEquality.{eq_iff}

abbrev pub codes : String → List ℕ
codes String.[] = []
codes (String.◌∷◌ c s) = code c ∷ codes s

-- a text that is cut or searched, as its code points
abbrev pub Text : Type 0
Text = List ℕ

-- the white space of `trim` and of `\s`: tab to carriage return, space, no-break space, the line and
-- paragraph separators, the byte order mark, and the other spaces of Unicode
abbrev pub is_space : ℕ → Bool
is_space c =
    (leb 9 c && leb c 13)
    || (nat_beq c 32
        || (nat_beq c 160
            || (nat_beq c 0x1680
                || ((leb 0x2000 c && leb c 0x200A)
                    || (nat_beq c 0x2028
                        || (nat_beq c 0x2029
                            || (nat_beq c 0x202F
                                || (nat_beq c 0x205F
                                    || (nat_beq c 0x3000 || nat_beq c 0xFEFF)))))))))

abbrev pub trim_start : Text → Text
trim_start [] = []
trim_start (c ∷ cs) = let rest = trim_start cs in if is_space c then rest else c ∷ cs

abbrev pub push_unless_blank : ℕ → Text → Text
push_unless_blank c [] = if is_space c then [] else c ∷ []
push_unless_blank c (d ∷ cs) = c ∷ d ∷ cs

abbrev pub trim_end : Text → Text
trim_end [] = []
trim_end (c ∷ cs) = push_unless_blank c (trim_end cs)

abbrev pub trim : Text → Text
trim cs = trim_end (trim_start cs)
