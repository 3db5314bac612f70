-- ===== src/Bytes/Text.antt =====
-- `String::from_utf8` and `String::from_utf8_lossy` on bytes, by the standard's table of
-- well-formed sequences.
use minikv.Prelude.{
  ℕ, zero, suc, ◌≡◌, refl, ap, Bool, true, false, ◌&&◌, [], ◌∷◌, ◌++◌, arith, leb, ltb, nat_beq,
  if◌then◌else◌, and-eq-true, append-nil, append_assoc, ◌∙◌, sym,
}
use minikv.Errors.{Result, ok, err, Error}
use minikv.Bytes.Word.{Bytes}

-- The bytes `held` of an unfinished character, how many are still due, and the range of the next.
pub record Utf8State : Type 0 where
  pub held : Bytes
  pub due : ℕ
  pub low : ℕ
  pub high : ℕ

abbrev pub start : Utf8State
start = record { held = []; due = 0; low = 0; high = 0 }

-- U+FFFD
abbrev pub replacement : Bytes
replacement = 0xef ∷ 0xbf ∷ 0xbd ∷ []

-- One byte: what is put out, whether no replacement was needed, and the next state.
pub record Utf8Step : Type 0 where
  pub out : Bytes
  pub clean : Bool
  pub next : Utf8State

abbrev awaiting : ℕ → ℕ → ℕ → ℕ → Utf8Step
awaiting b due low high = record {
  out = [];
  clean = true;
  next = record { held = b ∷ []; due = due; low = low; high = high };
}

abbrev emitting : Bytes → Bool → Utf8Step
emitting out clean = record { out = out; clean = clean; next = start }

-- The first byte of a character.
lead : ℕ → Utf8Step
lead b =
    if ltb b 0x80
    then emitting (b ∷ []) true
    else if ltb b 0xc2
    then emitting replacement false
    else if ltb b 0xe0
    then awaiting b 1 0x80 0xbf
    else if nat_beq b 0xe0
    then awaiting b 2 0xa0 0xbf
    else if nat_beq b 0xed
    then awaiting b 2 0x80 0x9f
    else if ltb b 0xf0
    then awaiting b 2 0x80 0xbf
    else if nat_beq b 0xf0
    then awaiting b 3 0x90 0xbf
    else if ltb b 0xf4
    then awaiting b 3 0x80 0xbf
    else if nat_beq b 0xf4
    then awaiting b 3 0x80 0x8f
    else emitting replacement false

-- A byte inside a character; one out of range ends it and begins the next.
inner : ℕ → Utf8State → ℕ → Utf8Step
inner due s b =
    if leb s.low b && leb b s.high
    then elim due [
      | zero ↦ emitting (s.held ++ b ∷ []) true
      | suc k ↦ record {
        out = [];
        clean = true;
        next = record { held = s.held ++ b ∷ []; due = suc k; low = 0x80; high = 0xbf };
      }
    ]
    else record (lead b) { out = replacement ++ (lead b).out; clean = false }

step : ℕ → Utf8State → ℕ → Utf8Step
unfolding lead inner
step zero s b = lead b
step (suc k) s b = inner k s b

-- Whether all is well formed, and the text with the bad parts replaced.
decode : Utf8State → Bytes → Bool × Bytes
unfolding step
decode s [] = elim s.held [ [] ↦ (true, []) | b ∷ bs ↦ (false, replacement) ]
decode s (b ∷ bs) =
    let t = step s.due s b in let rest = decode t.next bs in (t.clean && rest.0, t.out ++ rest.1)

unfoldable pub is_utf8 : Bytes → Bool
unfolding decode
is_utf8 bs = (decode start bs).0

unfoldable pub from_utf8 : Error → Bytes → Result Bytes
unfolding is_utf8
from_utf8 e bs = if is_utf8 bs then ok bs else err e

unfoldable pub from_utf8_lossy : Bytes → Bytes
unfolding decode
from_utf8_lossy bs = (decode start bs).1

-- Between two characters nothing is held.
abbrev IsReady : Utf8State → Type 0
IsReady s = s.due ≡ 0 → s.held ≡ []

step-IsReady : (k : ℕ) (s : Utf8State) (b : ℕ) → IsReady (step k s b).next
unfolding step
step-IsReady zero s b = ground arith
step-IsReady (suc zero) s b = ground arith
step-IsReady (suc (suc k)) s b = ground arith

-- A clean step moves the byte from the input to what is put out or held.
step_clean :
    (k : ℕ) (s : Utf8State) (b : ℕ)
    → (k ≡ 0 → s.held ≡ [])
    → (step k s b).clean ≡ true
    → (step k s b).out ++ (step k s b).next.held ≡ s.held ++ b ∷ []
unfolding step
step_clean zero s b r h = rw (r refl) (ground arith)
step_clean (suc zero) s b r h = ground (arith, append-nil (s.held ++ b ∷ []))
step_clean (suc (suc k)) s b r h = ground arith

decode_clean :
    (bs : Bytes) (s : Utf8State)
    → IsReady s
    → (decode s bs).0 ≡ true
    → (decode s bs).1 ≡ s.held ++ bs
unfolding decode
decode_clean [] s r h = ground arith
decode_clean (b ∷ bs) s r h =
    let t = step s.due s b in
    let (c, d) = and-eq-true t.clean (decode t.next bs).0 h in
    ap (λ l. t.out ++ l) (decode_clean bs t.next (step-IsReady s.due s b) d)
    ∙ sym (append_assoc t.out t.next.held bs)
    ∙ ap (λ l. l ++ bs) (step_clean s.due s b r c)
    ∙ append_assoc s.held (b ∷ []) bs

-- Well-formed text is decoded to itself.
pub lossy_of_utf8 : (bs : Bytes) → is_utf8 bs ≡ true → from_utf8_lossy bs ≡ bs
unfolding is_utf8 from_utf8_lossy
lossy_of_utf8 bs h = decode_clean bs start (λ e. refl) h
