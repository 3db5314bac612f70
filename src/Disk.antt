-- ===== src/Disk.antt =====
-- Files as their bytes, and `std::io::BufWriter` over a file that is written at its end. The
-- operating system's errors are not modelled: a write succeeds.
use minikv.Prelude.{
  ◌-◌, ◌≡◌, refl, ap, sym, ◌≤◌, ◌∷◌, ◌∙◌, ℕ, [], ◌++◌, arith, Bool-cases, inl, inr, leb→le, leb,
  ltb, length, if◌then◌else◌, append-nil, append_assoc,
}
use minikv.Bytes.{Bytes}

-- The file as other readers see it, and as it was when it was last synced to the disk.
pub record File : Type 0 where
  pub content : Bytes
  pub synced : Bytes

-- `BufWriter<File>` over a file that is written at its end.
pub record BufWriter : Type 0 where
  pub file : File
  pub buffer : Bytes

abbrev pub capacity : ℕ
capacity = 8192

unfoldable pub flush : BufWriter → BufWriter
flush w = record w { file = record w.file { content = w.file.content ++ w.buffer }; buffer = [] }

unfoldable pub sync_all : BufWriter → BufWriter
sync_all w = record w { file = record w.file { synced = w.file.content } }

unfoldable pub push : Bytes → BufWriter → BufWriter
push d w = record w { buffer = w.buffer ++ d }

unfoldable pub write_through : Bytes → BufWriter → BufWriter
write_through d w = record w { file = record w.file { content = w.file.content ++ d } }

unfoldable pub make_room : ℕ → BufWriter → BufWriter
unfolding flush
make_room n w = if ltb (capacity - length w.buffer) n then flush w else w

-- A write that leaves no room goes on after a flush, and one of the whole capacity to the file.
unfoldable pub write_all : Bytes → BufWriter → BufWriter
write_all d w =
    if ltb (length d) (capacity - length w.buffer)
    then push d w
    else if leb capacity (length d)
    then write_through d (make_room (length d) w)
    else push d (make_room (length d) w)

length_zero : (xs : Bytes) → length xs ≡ 0 → xs ≡ []
length_zero [] h = refl
length_zero (x ∷ xs) h = absurd (omega arith)

-- What the file will hold after a flush.
abbrev pub stream : BufWriter → Bytes
stream w = w.file.content ++ w.buffer

pub stream-flush : (w : BufWriter) → stream (flush w) ≡ stream w
unfolding flush
stream-flush w = append-nil (stream w)

pub stream-sync_all : (w : BufWriter) → stream (sync_all w) ≡ stream w
unfolding sync_all
stream-sync_all w = refl

stream-push : (d : Bytes) (w : BufWriter) → stream (push d w) ≡ stream w ++ d
unfolding push
stream-push d w = sym (append_assoc w.file.content w.buffer d)

stream-make_room : (n : ℕ) (w : BufWriter) → stream (make_room n w) ≡ stream w
unfolding make_room
stream-make_room n w = ground (arith, stream-flush w)

-- A write of the whole capacity finds the buffer empty.
make_room_empty : (n : ℕ) (w : BufWriter) → capacity ≤ n → (make_room n w).buffer ≡ []
unfolding make_room flush
make_room_empty n w h = ground (arith, length_zero w.buffer)

stream-write_through :
    (d : Bytes) (w : BufWriter) → w.buffer ≡ [] → stream (write_through d w) ≡ stream w ++ d
unfolding write_through
stream-write_through d w e = rw (e, append-nil (w.file.content ++ d), append-nil w.file.content)

-- Buffering loses and reorders nothing: each write adds its bytes at the end of the stream.
pub stream-write_all : (d : Bytes) (w : BufWriter) → stream (write_all d w) ≡ stream w ++ d
unfolding write_all
stream-write_all d w = elim (Bool-cases (ltb (length d) (capacity - length w.buffer))) [
  | inl small ↦ rw small (stream-push d w)
  | inr large ↦ elim (Bool-cases (leb capacity (length d))) [
    | inl whole ↦
        rw (large, whole)
          (stream-write_through d room (make_room_empty _ w (leb→le _ _ whole)) ∙ roomy)
    | inr part ↦ rw (large, part) (stream-push d room ∙ roomy)
  ]
]
  where
    room : BufWriter
    room = make_room (length d) w

    roomy : stream room ++ d ≡ stream w ++ d
    roomy = ap (λ l. l ++ d) (stream-make_room (length d) w)

pub content-flush : (w : BufWriter) → (flush w).file.content ≡ stream w
unfolding flush
content-flush w = refl
