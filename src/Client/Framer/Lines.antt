-- ===== src/Client/Framer/Lines.antt =====
-- StdoutFramer: the lines do not depend on how the output is cut into chunks, and are those of a
-- framer that keeps whole lines.
use Prim.Native.Nat.{ℕ}
use mathlib.Core.List.{append_assoc}
use fcitx5_vinput.Base.{
  ◌≡◌, refl, ◌∙◌, sym, ap, ◌⊎◌, true, false, not, List, [], ◌∷◌, ◌++◌, arith, inl, inr,
  if◌then◌else◌, length, length-append, ltb, leb, ◌==◌,
}
use fcitx5_vinput.Client.Framer.{
  Bytes, newline, carriage_return, max_command_line_bytes, StdoutFramer, new_framer, feed_byte,
  feed,
}

-- Feeding two chunks is feeding their concatenation.
feed-append :
    (f : StdoutFramer) (xs ys : Bytes)
    → let first = feed f xs in
      let second = feed first.0 ys in feed f (xs ++ ys) ≡ (second.0, first.1 ++ second.1)
unfolding feed
feed-append f [] ys = refl
feed-append f (c ∷ xs) ys =
    let step = feed_byte f c in
    let first = feed step.0 xs in
    let second = feed first.0 ys in
    rw (feed-append step.0 xs ys)
      (ap (λ l. (second.0, l)) (sym (append_assoc step.1 first.1 second.1)))

-- The lines of a framer without a bound on its buffer: a line that has ended is kept unless it is
-- too long.
unfoldable pub lines_of : Bytes → Bytes → List Bytes
lines_of line [] = []
lines_of line (c ∷ bytes) =
    let next = lines_of [] bytes in
    let same = lines_of line bytes in
    let longer = lines_of (line ++ c ∷ []) bytes in
    if c == newline
    then (if leb (length line) max_command_line_bytes then line ∷ next else next)
    else (if c == carriage_return then same else longer)

-- A bounded state of the line read so far.
record Holds (f : StdoutFramer) (line : Bytes) : Type 0 where
  short : (f.overflow ≡ true) ⊎ (f.pending ≡ line)
  fits : leb (length f.pending) max_command_line_bytes ≡ true
  long :
      (f.overflow ≡ false)
      ⊎ ((leb max_command_line_bytes (length f.pending) ≡ true)
          × (ltb max_command_line_bytes (length line) ≡ true))

new-Holds : Holds new_framer []
new-Holds = record { short = inr refl; fits = refl; long = inl refl }

-- A byte that is kept.
abbrev keep_byte : StdoutFramer → ℕ → StdoutFramer
keep_byte f c =
    if leb max_command_line_bytes (length f.pending)
    then record f { overflow = true }
    else record f { pending = f.pending ++ c ∷ [] }

keep_byte-Holds :
    (f : StdoutFramer) (line : Bytes) (c : ℕ)
    → Holds f line
    → Holds (keep_byte f c) (line ++ c ∷ [])
keep_byte-Holds f line c h = record {
  short = ground (arith, h.short, h.long);
  fits = ground (arith, h.fits, length-append f.pending (c ∷ []));
  long = ground (
    arith,
    h.short,
    h.long,
    h.fits,
    length-append f.pending (c ∷ []),
    length-append line (c ∷ []),
  );
}

-- A line that ends is handled if it is short.
newline_lem :
    (f : StdoutFramer) (line : Bytes) (rest : List Bytes)
    → Holds f line
    → (if not f.overflow then f.pending ∷ [] else []) ++ rest
      ≡ (if leb (length line) max_command_line_bytes then line ∷ rest else rest)
newline_lem f line rest h = ground (arith, h.short, h.long, h.fits)

feed-Holds :
    (f : StdoutFramer) (line bytes : Bytes) → Holds f line → (feed f bytes).1 ≡ lines_of line bytes
unfolding feed feed_byte lines_of
feed-Holds f line [] h = refl
feed-Holds f line (c ∷ bytes) h = ground (
  arith,
  newline_lem f line (lines_of [] bytes) h,
  feed-Holds new_framer [] bytes new-Holds,
  feed-Holds f line bytes h,
  feed-Holds (keep_byte f c) (line ++ c ∷ []) bytes (keep_byte-Holds f line c h),
)

-- From a new framer, whatever the output, the lines handled are those of the unbounded framer: every
-- ended line of at most 64 KiB, without its carriage returns, in order, and no other.
pub feed-lines_of : (bytes : Bytes) → (feed new_framer bytes).1 ≡ lines_of [] bytes
feed-lines_of bytes = feed-Holds new_framer [] bytes new-Holds

-- What a framer is left with by the calls of Feed for the chunks of an output, and the lines that
-- they handle.
unfoldable pub feed_chunks : StdoutFramer → List Bytes → StdoutFramer × List Bytes
feed_chunks f [] = (f, [])
feed_chunks f (chunk ∷ chunks) =
    let first = feed f chunk in let rest = feed_chunks first.0 chunks in (rest.0, first.1 ++ rest.1)

unfoldable pub joined : List Bytes → Bytes
joined [] = []
joined (chunk ∷ chunks) = chunk ++ joined chunks

feed_chunks-feed :
    (f : StdoutFramer) (chunks : List Bytes) → feed_chunks f chunks ≡ feed f (joined chunks)
unfolding feed_chunks joined feed
feed_chunks-feed f [] = refl
feed_chunks-feed f (chunk ∷ chunks) =
    let first = feed f chunk in
    ap (λ r. (r.0, first.1 ++ r.1)) (feed_chunks-feed first.0 chunks)
    ∙ sym (feed-append f chunk (joined chunks))

feed-fits :
    (f : StdoutFramer) (line bytes : Bytes)
    → Holds f line
    → leb (length (feed f bytes).0.pending) max_command_line_bytes ≡ true
unfolding feed feed_byte
feed-fits f line [] h = h.fits
feed-fits f line (c ∷ bytes) h = ground (
  arith,
  feed-fits new_framer [] bytes new-Holds,
  feed-fits f line bytes h,
  feed-fits (keep_byte f c) (line ++ c ∷ []) bytes (keep_byte-Holds f line c h),
)

-- From a new framer, however the output comes in chunks, the lines handled are the ended lines of
-- the whole output of at most 64 KiB, without carriage returns and in order, and the buffer holds at
-- most 64 KiB after it.
pub feed_chunks-lines_of :
    (chunks : List Bytes)
    → let r = feed_chunks new_framer chunks in
      (r.1 ≡ lines_of [] (joined chunks)) × (leb (length r.0.pending) max_command_line_bytes ≡ true)
feed_chunks-lines_of chunks =
    let bytes = joined chunks in
    rw (feed_chunks-feed new_framer chunks)
      (feed-lines_of bytes, feed-fits new_framer [] bytes new-Holds)
