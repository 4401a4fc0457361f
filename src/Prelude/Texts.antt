-- ===== src/Prelude/Texts.antt =====
-- The functions of Go's strings, path and sort packages that the program calls, on texts as
-- lists of code points.
use Prim.Native.Char.{code}
use Prim.Native.String.{String, ◌++◌, compare}
use Prim.Native.Nat.{ℕ}
use mathlib.Core.Path.{◌≡◌, refl}
use mathlib.Core.Bool.{Bool, true, false, ◌&&◌, ◌||◌}
use mathlib.Core.Option.{Option, none, some}
use mathlib.Core.List.{List, [], ◌∷◌}
use text.Mathlib.Text.{is_lt, ◌==◌ as same_text}
use r_orchestrator.Prelude.Tests.{leb, ◌==◌, if◌then◌else◌}
use r_orchestrator.Prelude.Rows.{sorted_rows}

abbrev pub is_empty : String → Bool
is_empty String.[] = true
is_empty (String.◌∷◌ c s) = false

-- unicode.IsSpace.
abbrev pub is_space : ℕ → Bool
is_space c =
    (leb 9 c && leb c 13)
    || (c == 32
        || (c == 133
            || (c == 160
                || (c == 5760
                    || ((leb 8192 c && leb c 8202)
                        || (c == 8232
                            || (c == 8233 || (c == 8239 || (c == 8287 || c == 12288)))))))))

unfoldable pub trim_left : String → String
trim_left String.[] = ""
trim_left (String.◌∷◌ c s) =
    let rest = trim_left s in if is_space (code c) then rest else String.◌∷◌ c s

unfoldable pub trim_right : String → String
trim_right String.[] = ""
trim_right (String.◌∷◌ c s) =
    let rest = trim_right s in if is_space (code c) && is_empty rest then "" else String.◌∷◌ c rest

-- strings.TrimSpace.
unfoldable pub trim_space : String → String
unfolding trim_left trim_right
trim_space s = trim_left (trim_right s)

-- strings.CutPrefix: the text behind a prefix.
unfoldable pub cut_prefix : (text prefix : String) → Option String
cut_prefix s String.[] = some s
cut_prefix String.[] (String.◌∷◌ d p) = none
cut_prefix (String.◌∷◌ c s) (String.◌∷◌ d p) =
    let rest = cut_prefix s p in if code c == code d then rest else none

-- strings.HasSuffix.
unfoldable pub has_suffix : (text suffix : String) → Bool
has_suffix String.[] suffix = is_empty suffix
has_suffix (String.◌∷◌ c s) suffix =
    let rest = has_suffix s suffix in if same_text (String.◌∷◌ c s) suffix then true else rest

-- The part of a text before its first slash, and the parts behind each slash.
unfoldable pub first_part : String → String
first_part String.[] = ""
first_part (String.◌∷◌ c s) =
    let rest = first_part s in if code c == 47 then "" else String.◌∷◌ c rest

unfoldable pub later_parts : String → List String
unfolding first_part
later_parts String.[] = []
later_parts (String.◌∷◌ c s) =
    let rest = later_parts s in if code c == 47 then first_part s ∷ rest else rest

-- One element of a path, on the elements before it, the last first.
unfoldable pub clean_element : (rooted : Bool) → List String → String → List String
clean_element rooted [] e =
    if same_text e "" || same_text e "."
    then []
    else if same_text e ".." && rooted
    then []
    else e ∷ []
clean_element rooted (d ∷ ds) e =
    if same_text e "" || same_text e "."
    then d ∷ ds
    else if same_text e ".."
    then (if same_text d ".." then e ∷ d ∷ ds else ds)
    else e ∷ d ∷ ds

unfoldable pub clean_elements : (rooted : Bool) → List String → List String → List String
unfolding clean_element
clean_elements rooted ds [] = ds
clean_elements rooted ds (e ∷ es) = clean_elements rooted (clean_element rooted ds e) es

-- The elements of a path, the last first, with a slash between each two.
unfoldable pub join_elements : List String → String
join_elements [] = ""
join_elements (e ∷ []) = e
join_elements (e ∷ d ∷ ds) = join_elements (d ∷ ds) ++ ("/" ++ e)

-- path.Clean.
unfoldable pub clean : String → String
unfolding clean_elements join_elements first_part later_parts
clean p =
    let rooted = (if is_empty p then false else is_empty (first_part p)) in
    let joined = join_elements (clean_elements rooted [] (first_part p ∷ later_parts p)) in
    if rooted then "/" ++ joined else if is_empty joined then "." else joined

-- path.Split: the directory up to the last slash, and the file name behind it.
unfoldable pub split_path : String → String × String
split_path String.[] = ("", "")
split_path (String.◌∷◌ c s) =
    let (dir, name) = split_path s in
    if is_empty dir
    then (if code c == 47 then ("/", name) else ("", String.◌∷◌ c name))
    else (String.◌∷◌ c dir, name)

abbrev pub text_before : String → String → Bool
text_before a b = is_lt (compare a b)

-- sort.Strings.
abbrev pub sorted_texts : List String → List String
sorted_texts = sorted_rows text_before

trimmed : trim_space "  a b\n" ≡ "a b"
unfolding trim_space
trimmed = refl

cleaned : (clean "./cmd//x/../" ≡ "cmd") × (clean "" ≡ ".") × (clean "/../a" ≡ "/a")
unfolding clean
cleaned = (refl, refl, refl)

split_cases : (split_path "cmd/a.sh" ≡ ("cmd/", "a.sh")) × (split_path "a.sh" ≡ ("", "a.sh"))
unfolding split_path
split_cases = (refl, refl)

suffixes : (has_suffix "a.sh" ".sh" ≡ true) × (has_suffix "sh" ".sh" ≡ false)
unfolding has_suffix
suffixes = (refl, refl)

sorted_case : sorted_texts ("b" ∷ "a" ∷ "b" ∷ []) ≡ "a" ∷ "b" ∷ "b" ∷ []
sorted_case = refl
