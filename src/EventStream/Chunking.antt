-- ===== src/EventStream/Chunking.antt =====
-- The reading of an event stream and the pieces in which it arrives.
use rune_terminal.Base.{
  ◌≡◌, refl, sym, ap, ◌∙◌, Bool, true, false, List, [], ◌∷◌, ◌++◌, ◌==◌, All, arith,
}
use mathlib.Core.List.{append_assoc}
use rune_terminal.Text.{Text, join}
use rune_terminal.EventStream.{
  carriage_return, normalize_from, normalize_newlines, split_blocks, Delivery, Delivered,
  deliver_then, then_deliver, flush_remainder, consume_stream,
}
use rune_terminal.EventStream.Blocks.{
  HasNoReturn, resume, split_blocks-append, split_blocks-HasNoReturn, normalize_from-HasNoReturn,
  normalize_from-append,
}

-- The text ends by a carriage return, or is empty and stands behind one.
abbrev pub ends_by_return : (after_return : Bool) → Text → Bool
ends_by_return after_return [] = after_return
ends_by_return after_return (c ∷ s) = ends_by_return (c == carriage_return) s

-- The normalization of a text that does not end by a carriage return is that of its parts.
normalize_from-split :
    (after_return : Bool) (s t : Text)
    → ends_by_return after_return s ≡ false
    → normalize_from after_return (s ++ t) ≡ normalize_from after_return s ++ normalize_from false t
unfolding normalize_from
normalize_from-split true [] t h = cc
normalize_from-split false [] t h = refl
normalize_from-split after_return (c ∷ s) t h =
    ground (arith, normalize_from-split true s t, normalize_from-split false s t)

deliver_then-append :
    {A : Type 0} (on_block : Text → Delivery A) (xs ys : List Text) (rest : Delivered A)
    → deliver_then on_block (xs ++ ys) rest
      ≡ deliver_then on_block xs (deliver_then on_block ys rest)
unfolding deliver_then
deliver_then-append on_block [] ys rest = refl
deliver_then-append on_block (x ∷ xs) ys rest =
    ap (then_deliver on_block (on_block x)) (deliver_then-append on_block xs ys rest)

module _ {A : Type 0} (on_block : Text → Delivery A) where
  -- What a normalized text leads to at the end of the stream.
  abbrev finish : List Text × Text → Delivered A
  finish (blocks, rest) = deliver_then on_block blocks (flush_remainder on_block rest)

  finish-resume :
      (p : List Text × Text) (t : Text)
      → finish (resume p t) ≡ deliver_then on_block p.0 (finish (split_blocks (p.1 ++ t)))
  finish-resume (blocks, rest) t = deliver_then-append on_block blocks _ _

  consume_stream_joined :
      (buffer : Text) (reads : List Text) (last : Text)
      → HasNoReturn buffer
      → All (λ read. ends_by_return false read ≡ false) reads
      → consume_stream on_block buffer reads last
        ≡ consume_stream on_block buffer [] (join reads ++ last)
  unfolding consume_stream join
  consume_stream_joined buffer [] last h k = refl
  consume_stream_joined buffer (read ∷ reads) last h (plain, k) =
      let more = join reads ++ last in
      let first = split_blocks (normalize_newlines (buffer ++ read)) in
      let clean =
        split_blocks-HasNoReturn (normalize_newlines (buffer ++ read))
          (normalize_from-HasNoReturn false (buffer ++ read)) in
      let whole : normalize_newlines (buffer ++ ((read ++ join reads) ++ last))
          ≡ normalize_newlines (buffer ++ read) ++ normalize_newlines more =
        rw (append_assoc read (join reads) last) (
          rw (normalize_from-append buffer (read ++ more) h) (
            rw (normalize_from-split false read more plain) (
              rw (normalize_from-append buffer read h) (
                sym (append_assoc buffer (normalize_newlines read) (normalize_newlines more)))))) in
      ap (deliver_then on_block first.0) (
        consume_stream_joined first.1 reads last clean k
        ∙ ap (λ s. finish (split_blocks s)) (normalize_from-append first.1 more clean))
      ∙ sym (finish-resume first (normalize_newlines more))
      ∙ ap finish (sym (split_blocks-append (normalize_newlines (buffer ++ read)) _))
      ∙ ap (λ s. finish (split_blocks s)) (sym whole)

  -- However a stream is cut into the texts that are read, as long as none but the last one ends by a
  -- carriage return: the listener is called with the same events, in the same order, and the reading
  -- ends in the same way, as if the whole stream had come at once.
  pub consume_stream-join :
      (reads : List Text) (last : Text)
      → All (λ read. ends_by_return false read ≡ false) reads
      → consume_stream on_block [] reads last ≡ consume_stream on_block [] [] (join reads ++ last)
  consume_stream-join reads last k = consume_stream_joined [] reads last tt k
