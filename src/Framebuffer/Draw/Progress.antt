-- ===== src/Framebuffer/Draw/Progress.antt =====
-- The trace of `_write_all`, and its end.
use mathlib.Core.List.{append_assoc}
use edgepi_e87n.Base.{
  ℕ, ◌+◌, ◌≤◌, ◌≡◌, ◌≢◌, refl, sym, ap, ◌∙◌, true, ◌&&◌, List, [], ◌∷◌, ◌++◌, leb, length, arith,
  Bool-cases, inl, inr, ◌⊎◌, take, drop, take-append-drop, length-take, length-drop, Bytes,
}
use edgepi_e87n.Framebuffer.{bad_progress, io_error}
use edgepi_e87n.Framebuffer.Draw.{
  Answer, interrupted, written, failed, End, done, waiting, raised, Chunk, Writing, stop, taken,
  write_all,
}

-- All bytes of a trace, in order.
unfoldable pub contents : List Chunk → Bytes
contents [] = []
contents (c ∷ cs) = c.bytes ++ contents cs

-- Each chunk starts where the one before it ended.
abbrev pub IsContiguous : ℕ → List Chunk → Type 0
IsContiguous offset [] = Unit {0}
IsContiguous offset (c ∷ cs) = (c.offset ≡ offset) × IsContiguous (offset + length c.bytes) cs

-- The trace is a prefix of the data at the offset, and the whole of it if the call returned.
pub record Writes (data' : Bytes) (offset : ℕ) (w : Writing) : Type 0 where
  pub unwritten : Bytes
  pub splits : data' ≡ contents w.trace ++ unwritten
  pub contiguous : IsContiguous offset w.trace
  pub whole : (unwritten ≡ []) ⊎ (w.outcome ≢ done)

stopped :
    (data' : Bytes) (offset : ℕ) (rest : List Answer) (e : End)
    → e ≢ done
    → Writes data' offset (stop rest e)
unfolding contents
stopped data' offset rest e ne = record {
  unwritten = data';
  splits = refl;
  contiguous = tt;
  whole = inr ne;
}

taken-Writes :
    (data' : Bytes) (offset n : ℕ) (w : Writing)
    → n ≤ length data'
    → Writes (drop n data') (offset + n) w
    → Writes data' offset (taken offset (take n data') w)
unfolding contents
taken-Writes data' offset n w h r =
    let size : length (take n data') ≡ n = omega (arith, length-take n data') in
    record {
      unwritten = r.unwritten;
      splits =
          sym (take-append-drop n data')
          ∙ ap (λ t. take n data' ++ t) r.splits
          ∙ sym (append_assoc (take n data') (contents w.trace) r.unwritten);
      contiguous = (refl, rw size r.contiguous);
      whole = r.whole;
    }

-- Whatever the kernel answers: what reached the device is a prefix of the data, laid out without
-- gap from the offset on, and if `_write_all` returned it is all of the data.
pub write_all-Writes :
    (data' : Bytes) (offset : ℕ) (answers : List Answer)
    → Writes data' offset (write_all data' offset answers)
unfolding write_all contents
write_all-Writes [] offset answers = record {
  unwritten = [];
  splits = refl;
  contiguous = tt;
  whole = inl refl;
}
write_all-Writes (b ∷ bs) offset [] = stopped (b ∷ bs) offset [] waiting (λ h. cc)
write_all-Writes (b ∷ bs) offset (interrupted ∷ answers) = write_all-Writes (b ∷ bs) offset answers
write_all-Writes (b ∷ bs) offset (failed ∷ answers) =
    stopped (b ∷ bs) offset answers (raised io_error) (λ h. cc)
write_all-Writes (b ∷ bs) offset (written n ∷ answers) =
    elim (Bool-cases (leb 1 n && leb n (length (b ∷ bs)))) [
      | inl good ↦ rw good (
          taken-Writes (b ∷ bs) offset n _ (ground arith)
            (write_all-Writes (drop n (b ∷ bs)) (offset + n) answers))
      | inr bad ↦ rw bad (stopped (b ∷ bs) offset answers (raised bad_progress) (λ h. cc))
    ]

unfoldable pub count_written : List Answer → ℕ
count_written [] = 0
count_written (written n ∷ answers) = count_written answers + 1
count_written (_ ∷ answers) = count_written answers

-- `_write_all` does not loop for ever: if the kernel answers with a count at least as many times
-- as there are bytes, the loop has ended, however many calls are interrupted in between.
pub write_all_ends :
    (data' : Bytes) (offset : ℕ) (answers : List Answer)
    → length data' ≤ count_written answers
    → (write_all data' offset answers).outcome ≢ waiting
unfolding write_all count_written
write_all_ends [] offset answers h e = cc
write_all_ends (b ∷ bs) offset [] h e = absurd (omega arith)
write_all_ends (b ∷ bs) offset (interrupted ∷ answers) h e =
    write_all_ends (b ∷ bs) offset answers h e
write_all_ends (b ∷ bs) offset (failed ∷ answers) h e = cc
write_all_ends (b ∷ bs) offset (written n ∷ answers) h e =
    elim (Bool-cases (leb 1 n && leb n (length (b ∷ bs)))) [
      | inl good ↦
          write_all_ends (drop n (b ∷ bs)) (offset + n) answers
            (omega (arith, length-drop n (b ∷ bs), at_least n good)) (ground (arith, good))
      | inr bad ↦ ground (arith, bad)
    ]
  where
    at_least : (m : ℕ) → (leb 1 m && leb m (length (b ∷ bs))) ≡ true → 1 ≤ m
    at_least m k = ground arith
