-- ===== src/Core/MainLoop/Typing.antt =====
-- A line that is typed byte by byte.
use meshtastic_mini.Base.{ℕ, suc, ◌+◌, ◌≤◌, ◌<◌, ◌≡◌, ◌≢◌, refl, sym, ap, ◌∙◌, arith, min, List, []}
use meshtastic_mini.Base.{◌∷◌, ◌++◌, length, take, set, get_or, length-set, length-append}
use meshtastic_mini.Base.{take-set_next, take_all, get_or-set_eq, Run, ok, ◌>>=◌, ◌==◌, ltb, u16}
use meshtastic_mini.Base.{true, false, ◌||◌, Bool-cases, inl, inr, ltb→lt, take-append_left, ◌⊎◌}
use meshtastic_mini.Base.{take-set, bind-ok}
use mathlib.Core.List.{append_assoc, append-nil}
use mathlib.Core.Path.{subst}
use meshtastic_mini.Crypto.{Cryp}
use meshtastic_mini.Core.MainLoop.{Node}
use meshtastic_mini.Core.MainLoop.Line.{line_byte, do_line}

-- No byte ends the line.
abbrev pub InLine : List ℕ → Type 0
InLine [] = Unit
InLine (b ∷ text) = (b ≢ 13) × (b ≢ 10) × InLine text

-- The buffer holds the first 199 of the bytes typed.
pub record Holds (buf : List ℕ) (len : ℕ) (typed : List ℕ) : Type 0 where
  pub size : length buf ≡ 200
  pub kept : take len buf ≡ take 199 typed
  pub counted : len ≡ min 199 (length typed)

stored-Holds :
    (buf : List ℕ) (len b : ℕ) (typed : List ℕ)
    → Holds buf len typed
    → len < 199
    → Holds (set buf len b) (u16 (len + 1)) (typed ++ b ∷ [])
stored-Holds buf len b typed v room = record {
  size = length-set buf len b ∙ v.size;
  kept =
      let next : u16 (len + 1) ≡ suc len = omega arith in
      let short : length typed ≤ 199 = omega (arith, v.counted) in
      ap (λ k. take k (set buf len b)) next
      ∙ take-set_next buf len b (omega (arith, v.size))
      ∙ ap (λ l. l ++ b ∷ []) (v.kept ∙ take_all typed 199 short)
      ∙ sym
          (take_all (typed ++ b ∷ []) 199 (omega (arith, v.counted, length-append typed (b ∷ []))));
  counted = omega (arith, v.counted, length-append typed (b ∷ []));
}

full-Holds :
    (buf : List ℕ) (len b : ℕ) (typed : List ℕ)
    → Holds buf len typed
    → 199 ≤ len
    → Holds buf len (typed ++ b ∷ [])
full-Holds buf len b typed v full = record {
  size = v.size;
  kept = v.kept ∙ sym (take-append_left 199 typed (b ∷ []) (omega (arith, v.counted)));
  counted = omega (arith, v.counted, length-append typed (b ∷ []));
}

some_length : (text : List ℕ) (len : ℕ) → text ≢ [] → len ≡ min 199 (length text) → len ≢ 0
some_length [] len some_text e = absurd (some_text refl)
some_length (b ∷ text) len some_text e = λ none. omega arith

module _ {cryp : Cryp} {S : Type 0} (fuel : ℕ) where
  -- The bytes, one after the other.
  unfoldable pub type_bytes : List ℕ → Node cryp S → Run (Node cryp S)
  type_bytes [] n = ok n
  type_bytes (b ∷ bs) n = line_byte fuel b n >>= type_bytes bs

  -- A byte of a line.
  line_byte-Holds :
      (b : ℕ) (n : Node cryp S) (typed : List ℕ)
      → b ≢ 13
      → b ≢ 10
      → Holds n.line_buf n.line_len typed
      → (buf : List ℕ) × (len : ℕ) × (line_byte fuel b n
          ≡ ok (record n { line_buf = buf; line_len = len }))
        × Holds buf len (typed ++ b ∷ [])
  unfolding line_byte
  line_byte-Holds b n typed cr lf v =
      let goes_on : (b == 13 || b == 10) ≡ false = ground arith in
      elim (Bool-cases (ltb n.line_len 199)) [
        | inl room ↦ (
          set n.line_buf n.line_len b,
          u16 (n.line_len + 1),
          rw (goes_on, room) refl,
          stored-Holds n.line_buf n.line_len b typed v (ltb→lt n.line_len 199 room),
        )
        | inr full ↦ (
          n.line_buf,
          n.line_len,
          rw (goes_on, full) refl,
          full-Holds n.line_buf n.line_len b typed v (ground arith),
        )
      ]

  type_bytes-Holds :
      (text : List ℕ) (n : Node cryp S) (typed : List ℕ)
      → InLine text
      → Holds n.line_buf n.line_len typed
      → (buf : List ℕ) × (len : ℕ) × ((rest : List ℕ)
          → type_bytes (text ++ rest) n
            ≡ type_bytes rest (record n { line_buf = buf; line_len = len }))
        × Holds buf len (typed ++ text)
  unfolding type_bytes
  type_bytes-Holds [] n typed inside v = (
    n.line_buf,
    n.line_len,
    λ rest. refl,
    subst (Holds n.line_buf n.line_len) (sym (append-nil typed)) v,
  )
  type_bytes-Holds (b ∷ text) n typed (cr, lf, inside) v =
      let (buf, len, stored, v') = line_byte-Holds b n typed cr lf v in
      let (buf', len', typed_on, v'') =
        type_bytes-Holds text (record n { line_buf = buf; line_len = len }) (typed ++ b ∷ []) inside
          v' in
      (
        buf',
        len',
        λ rest. ap (λ r. r >>= type_bytes (text ++ rest)) stored ∙ typed_on rest,
        subst (Holds buf' len') (append_assoc typed (b ∷ []) text) v'',
      )

  -- The end of a line that is not empty.
  line_byte-ends :
      (stop : ℕ) (n : Node cryp S)
      → (stop ≡ 13) ⊎ (stop ≡ 10)
      → n.line_len ≢ 0
      → (line_byte fuel stop n >>= type_bytes []) ≡ (
          do_line fuel (record n { line_buf = set n.line_buf n.line_len 0 })
          >>= (λ n'. ok (record n' { line_len = 0 })))
  unfolding line_byte type_bytes
  line_byte-ends stop n stops some_line =
      let ends : (stop == 13 || stop == 10) ≡ true = ground arith in
      let not_empty : (n.line_len == 0) ≡ false = ground arith in rw (ends, not_empty) (bind-ok _)

  -- A text of at least one byte without CR and LF, typed into an empty line and ended by CR or LF:
  -- the node handles the line of its first 199 bytes, with a NUL behind them, and the line is empty
  -- again.
  pub typed_line :
      (text : List ℕ) (stop : ℕ) (n : Node cryp S)
      → InLine text
      → text ≢ []
      → (stop ≡ 13) ⊎ (stop ≡ 10)
      → n.line_len ≡ 0
      → length n.line_buf ≡ 200
      → (buf : List ℕ) × (type_bytes (text ++ stop ∷ []) n ≡ (
          do_line fuel (record n { line_buf = buf; line_len = min 199 (length text) })
          >>= (λ n'. ok (record n' { line_len = 0 }))))
        × (take (min 199 (length text)) buf ≡ take 199 text)
        × (get_or buf (min 199 (length text)) 0 ≡ 0)
  unfolding type_bytes
  typed_line text stop n inside some_text stops empty full =
      let none_typed : Holds n.line_buf n.line_len [] = record {
        size = full;
        kept = ap (λ k. take k n.line_buf) empty;
        counted = omega arith;
      } in
      let (buf, len, typed, v) = type_bytes-Holds text n [] inside none_typed in
      let m = record n { line_buf = buf; line_len = len } in
      subst
        (λ k.
          (buf' : List ℕ) × (type_bytes (text ++ stop ∷ []) n ≡ (
            do_line fuel (record n { line_buf = buf'; line_len = k })
            >>= (λ n'. ok (record n' { line_len = 0 }))))
          × (take k buf' ≡ take 199 text)
          × (get_or buf' k 0 ≡ 0))
        v.counted
        (
          set buf len 0,
          typed (stop ∷ [])
              ∙ line_byte-ends stop m stops (some_length text len some_text v.counted),
          take-set buf len 0 ∙ v.kept,
          get_or-set_eq buf len 0 0 (omega (arith, v.size, v.counted)),
        )
