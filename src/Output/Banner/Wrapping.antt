-- ===== src/Output/Banner/Wrapping.antt =====
-- `_wrap_finding` of output/banner.py: which words stand on which line.
use Prim.Native.String.{count as chars}
use mathlib.Core.List.{append_assoc}
use text.Mathlib.TextLemmas.{
  append-eq-nil_iff, append_assoc as text_assoc, length-append as chars-append,
}
use sonic_watchtower.Prelude.{
  ℕ, zero, suc, ◌+◌, ◌≤◌, ◌<◌, String, ◌<>◌, ◌≡◌, refl, ap, ◌∙◌, ◌⊎◌, inl, inr, true, false, List,
  [], ◌∷◌, ◌++◌, arith, leb, ltb, ◌==◌, eq_iff, ==_false, if◌then◌else◌, Bool-cases, length, take,
  concat, All, length-append,
}
use sonic_watchtower.Prelude.Text.{words, words_from-some_words, join}
use sonic_watchtower.Output.Banner.{
  Layout, layout, room, add_line, wrap_words, last_line, wrap_finding,
}

-- A line of words is within the room that is left by its margin, or is a single word.
abbrev pub Fits : Layout → List String → List String → Type 0
Fits l lines g = (length g ≡ 1) ⊎ (chars (join " " g) ≤ room l lines)

-- The next of the words behind a line would not fit on it.
abbrev pub IsFull : Layout → List String → List String → List String → Type 0
IsFull l lines g [] = Unit
IsFull l lines g (w ∷ ws) = room l lines < chars (join " " g) + 1 + chars w

-- Words on lines behind those of `lines`.
abbrev pub IsFilling : Layout → List String → List (List String) → Type 0
IsFilling l lines [] = Unit
IsFilling l lines (g ∷ gs) =
    Fits l lines g × IsFull l lines g (concat gs) × IsFilling l (add_line l lines (join " " g)) gs

-- The lines with those of the groups behind them.
abbrev pub lay : Layout → List String → List (List String) → List String
lay l lines [] = lines
lay l lines (g ∷ gs) = lay l (add_line l lines (join " " g)) gs

-- The words of the line that begins with `c ∷ cs` and of the lines behind it, with no bound.
group : Layout → List String → String → List String → List String → List (List String)
group l lines c cs [] = (c ∷ cs) ∷ []
group l lines c cs (w ∷ ws) =
    let current = join " " (c ∷ cs) in
    let longer = group l lines c (cs ++ w ∷ []) ws in
    let next = group l (add_line l lines current) w [] ws in
    if leb (chars current + 1 + chars w) (room l lines) then longer else (c ∷ cs) ∷ next

join-snoc :
    (c : String) (cs : List String) (w : String)
    → join " " (c ∷ cs ++ w ∷ []) ≡ join " " (c ∷ cs) <> " " <> w
unfolding join
join-snoc c [] w = refl
join-snoc c (d ∷ cs) w =
    let line = join " " (d ∷ cs) in
    cc (join-snoc d cs w, text_assoc c (" " <> line) (" " <> w), text_assoc " " line (" " <> w))

concat-group :
    (l : Layout) (lines : List String) (c : String) (cs ws : List String)
    → concat (group l lines c cs ws) ≡ c ∷ cs ++ ws
unfolding group
concat-group l lines c cs [] = refl
concat-group l lines c cs (w ∷ ws) =
    elim (Bool-cases (leb (chars (join " " (c ∷ cs)) + 1 + chars w) (room l lines))) [
      | inl fits ↦ rw fits (
          concat-group l lines c (cs ++ w ∷ []) ws
          ∙ ap (λ ys. c ∷ ys) (append_assoc cs (w ∷ []) ws))
      | inr breaks ↦
          rw breaks (
            ap (λ ys. c ∷ cs ++ ys) (concat-group l (add_line l lines (join " " (c ∷ cs))) w [] ws))
    ]

snoc-fits :
    (l : Layout) (lines : List String) (c : String) (cs : List String) (w : String)
    → leb (chars (join " " (c ∷ cs)) + 1 + chars w) (room l lines) ≡ true
    → chars (join " " (c ∷ cs ++ w ∷ [])) ≤ room l lines
snoc-fits l lines c cs w fits =
    let line = join " " (c ∷ cs) in
    rw (join-snoc c cs w) (ground (arith, fits, chars-append line (" " <> w), chars-append " " w))

group-IsFilling :
    (l : Layout) (lines : List String) (c : String) (cs ws : List String)
    → Fits l lines (c ∷ cs)
    → IsFilling l lines (group l lines c cs ws)
unfolding group
group-IsFilling l lines c cs [] fits = (fits, tt, tt)
group-IsFilling l lines c cs (w ∷ ws) fits =
    elim (Bool-cases (leb (chars (join " " (c ∷ cs)) + 1 + chars w) (room l lines))) [
      | inl joined ↦
          rw joined
            (group-IsFilling l lines c (cs ++ w ∷ []) ws (inr (snoc-fits l lines c cs w joined)))
      | inr breaks ↦
          let after = add_line l lines (join " " (c ∷ cs)) in
          rw breaks (
            fits,
            rw (concat-group l after w [] ws) (ground (arith, breaks)),
            group-IsFilling l after w [] ws (inl refl),
          )
    ]

snoc-some_word : (t w : String) → (t == "") ≡ false → (t <> " " <> w == "") ≡ false
snoc-some_word t w h =
    ==_false (t <> " " <> w) ""
      λ e. ground (arith, eq_iff t "", h, (append-eq-nil_iff {p = t} {q = " " <> w}).0 e)

-- A line more is a line more.
length-add_line :
    (l : Layout) (lines : List String) (t : String) → length (add_line l lines t) ≡ length lines + 1
length-add_line l lines t = length-append lines _

close-last :
    (l : Layout) (n : ℕ) (lines : List String) (t : String)
    → length lines + suc n ≡ l.max_lines
    → (t == "") ≡ false
    → last_line l (lines, t) ≡ add_line l lines t
close-last l n lines t e some_word =
    let room_left : ltb (length lines) l.max_lines ≡ true = ground (arith, e) in
    rw (some_word, room_left) refl

take-nil : {A : Type 0} (n : ℕ) → take {A = A} n [] ≡ []
take-nil zero = refl
take-nil (suc n) = refl

-- The word that would begin the line after the last is dropped.
no_room :
    (l : Layout) (lines : List String) (w : String)
    → length lines ≡ l.max_lines
    → (w == "") ≡ false
    → last_line l (lines, w) ≡ lines
no_room l lines w e some_word =
    let full : ltb (length lines) l.max_lines ≡ false = ground (arith, e) in
    rw (some_word, full) refl

-- The rest of the loop once a line is full, for the two outcomes of its test.
after_break :
    (l : Layout) (n : ℕ) (lines : List String) (w : String) (after : List String × String)
    (gs : List (List String))
    → length lines + n ≡ l.max_lines
    → (w == "") ≡ false
    → ((m : ℕ)
        → length lines + suc m ≡ l.max_lines
        → last_line l after ≡ lay l lines (take (suc m) gs))
    → last_line l (if leb l.max_lines (length lines) then (lines, w) else after)
      ≡ lay l lines (take n gs)
after_break l zero lines w after gs e some_word rest =
    let full : leb l.max_lines (length lines) ≡ true = ground (arith, e) in
    rw full (no_room l lines w (omega (arith, e)) some_word)
after_break l (suc n) lines w after gs e some_word rest =
    let open_yet : leb l.max_lines (length lines) ≡ false = ground (arith, e) in
    rw open_yet (rest n e)

-- The loop, with room for `suc n` more lines, gives the first `suc n` of the lines that the words
-- fill.
wrap_words_lem :
    (l : Layout) (ws : List String) (n : ℕ) (lines : List String) (c : String) (cs : List String)
    → length lines + suc n ≡ l.max_lines
    → (join " " (c ∷ cs) == "") ≡ false
    → All (λ w. (w == "") ≡ false) ws
    → last_line l (wrap_words l ws lines (join " " (c ∷ cs)))
      ≡ lay l lines (take (suc n) (group l lines c cs ws))
unfolding wrap_words group join
wrap_words_lem l [] n lines c cs e some_word _ =
    rw (take-nil {A = List String} n) (close-last l n lines (join " " (c ∷ cs)) e some_word)
wrap_words_lem l (w ∷ ws) n lines c cs e some_word h =
    elim (Bool-cases (leb (chars (join " " (c ∷ cs)) + 1 + chars w) (room l lines))) [
      | inl joined ↦
          let longer =
            wrap_words_lem l ws n lines c (cs ++ w ∷ []) e
              (rw (join-snoc c cs w) (snoc-some_word (join " " (c ∷ cs)) w some_word)) h.1 in
          rw (some_word, joined) (rw (join-snoc c cs w) at longer)
      | inr breaks ↦
          let lines' = add_line l lines (join " " (c ∷ cs)) in
          let e' : length lines' + n ≡ l.max_lines =
            omega (arith, length-add_line l lines (join " " (c ∷ cs))) in
          rw (some_word, breaks)
            (after_break l n lines' w (wrap_words l ws lines' w) (group l lines' w [] ws) e' h.0
              (λ m e''. wrap_words_lem l ws m lines' w [] e'' h.0 h.1))
    ]

-- The first word begins the first line.
group_all : Layout → List String → List (List String)
group_all l [] = []
group_all l (w ∷ ws) = group l [] w [] ws

group_all_lem :
    (l : Layout) (n : ℕ) (ws : List String)
    → suc n ≡ l.max_lines
    → All (λ w. (w == "") ≡ false) ws
    → (concat (group_all l ws) ≡ ws)
      × IsFilling l [] (group_all l ws)
      × (last_line l (wrap_words l ws [] "") ≡ lay l [] (take (suc n) (group_all l ws)))
unfolding group_all wrap_words join
group_all_lem l n [] e _ = (refl, tt, refl)
group_all_lem l n (w ∷ ws) e h = (
  concat-group l [] w [] ws,
  group-IsFilling l [] w [] ws (inl refl),
  wrap_words_lem l ws n [] w [] (omega (arith, e)) h.0 h.1,
)

-- With room for a line at least, there is a way to write all words of the summary on lines: in
-- their order and undivided, each line within the width by its margin or a single word, and each
-- followed by a word for which it had no room. The finding's lines are the first `max_lines` of those.
pub wrap_finding_lem :
    (severity summary : String) (width max_lines : ℕ)
    → 0 < max_lines
    → let l = layout severity width max_lines in
      (gs : List (List String)) × (concat gs ≡ words summary)
      × IsFilling l [] gs
      × (wrap_finding severity summary width max_lines ≡ lay l [] (take max_lines gs))
unfolding wrap_finding words
wrap_finding_lem severity summary width zero pos = absurd (omega (arith, pos))
wrap_finding_lem severity summary width (suc n) pos =
    let l = layout severity width (suc n) in
    let (complete, filling, same) =
      group_all_lem l n (words summary) refl (words_from-some_words "" summary) in
    (group_all l (words summary), complete, filling, same)
