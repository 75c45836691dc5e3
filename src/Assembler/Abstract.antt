-- ===== src/Assembler/Abstract.antt =====
-- dbn_reader.hpp: `RecordAssembler` up to its representation. Where the cursor stands and what is
-- before it makes no difference to a client, so assemblers with the same unconsumed bytes are one.
use trading_engine_hh.Base.{ℕ, ◌≡◌, refl, sym, ap, ◌∙◌, List, ◌++◌, length, arith}
use mathlib.Core.List
use mathlib.Core.Quot
use mathlib.Core.Quot.{Quot, Quot-set}
use native.Mathlib.Nat.{ℕ_set}
use std.Equiv.{◌≃◌, id_equiv, iso_to_equiv}
use std.Univalence.{equiv_j}
use trading_engine_hh.Assembler
use trading_engine_hh.Assembler.{Pull, RecordAssembler, append, view, buffered}
use trading_engine_hh.Assembler.Buffer.{IsValid, append-Appended, buffered-length}
use trading_engine_hh.Assembler.Queue.{PullQueue, byte_queue, pulled_off, next-Agrees}

-- The types of states that have the operations.
abbrev Queues : Type 1
Queues = (Q : Type 0) × PullQueue Q

-- A map of states that the operations do not tell apart.
record IsHom {Q R : Type 0} (f : Q → R) (s : PullQueue Q) (t : PullQueue R) : Type 0 where
  appends : (q : Q) (chunk : List ℕ) → f (s.append q chunk) ≡ t.append (f q) chunk
  nexts : (q : Q) → ((s.next q).0, f (s.next q).1) ≡ t.next (f q)
  sizes : (q : Q) → s.buffered q ≡ t.buffered (f q)

-- An equivalence that is such a map makes one of the two types with operations.
Queues-path :
    {Q R : Type 0} (e : Q ≃ R) (s : PullQueue Q) (t : PullQueue R)
    → IsHom e.0 s t
    → ◌≡◌ {A = Queues} (Q, s) (R, t)
unfolding id_equiv
Queues-path {R = R} e s t =
    equiv_j (λ Q e. (s : PullQueue Q) → IsHom e.0 s t → ◌≡◌ {A = Queues} (Q, s) (R, t))
      (λ s h i. (
        R,
        record {
          append = λ q chunk. h.appends q chunk i;
          next = λ q. h.nexts q i;
          buffered = λ q. h.sizes q i;
        },
      ))
      e s

abbrev Held : Type 0
Held = (a : RecordAssembler) × IsValid a

abbrev SameBytes : Held → Held → Type 0
SameBytes a b = view a.0 ≡ view b.0

abbrev Queued : Type 0
Queued = Quot SameBytes

abbrev append_held : Held → List ℕ → Held
append_held a chunk = (append a.0 chunk, (append-Appended a.0 chunk a.1).valid)

abbrev next_held : Held → Held
next_held a = ((Assembler.next a.0).1, (next-Agrees a.0 a.1).valid)

next-SameBytes :
    (a b : Held)
    → SameBytes a b
    → ((Assembler.next a.0).0 ≡ (Assembler.next b.0).0) × SameBytes (next_held a) (next_held b)
next-SameBytes a b e =
    let first = next-Agrees a.0 a.1 in
    let second = next-Agrees b.0 b.1 in
    (
      first.answer ∙ ap (λ u. (pulled_off u).0) e ∙ sym second.answer,
      first.bytes ∙ ap (λ u. (pulled_off u).1) e ∙ sym second.bytes,
    )

pulled_set : IsSet (Pull × Queued)
pulled_set = hlevel Quot-set

bytes_set : IsSet (List ℕ)
bytes_set = List.is_set ℕ_set

-- The operations respect the relation.
abbrev queued : PullQueue Queued
queued = record {
  append = λ q chunk.
      Quot.lift Quot-set (λ a. Quot.mk (append_held a chunk))
        (λ a b e. Quot.sound (
          (append-Appended a.0 chunk a.1).bytes
          ∙ ap (λ u. u ++ chunk) e
          ∙ sym (append-Appended b.0 chunk b.1).bytes))
        q;
  next =
      Quot.lift pulled_set (λ a. ((Assembler.next a.0).0, Quot.mk (next_held a)))
        (λ a b e i. (
          (next-SameBytes a b e).0 i,
          Quot.sound {a = next_held a} {b = next_held b} (next-SameBytes a b e).1 i,
        ));
  buffered =
      Quot.lift ℕ_set (λ a. buffered a.0)
        (λ a b e. buffered-length a.0 ∙ ap length e ∙ sym (buffered-length b.0));
}

abbrev bytes_of : Queued → List ℕ
bytes_of = Quot.lift bytes_set (λ a. view a.0) (λ a b e. e)

-- An assembler that has just been given the bytes.
abbrev holding : List ℕ → Held
holding u = (record { buf = u; read_pos = 0 }, omega arith)

abbrev bytes_equiv : Queued ≃ List ℕ
bytes_equiv = iso_to_equiv (record {
  fun = bytes_of;
  inv = λ u. Quot.mk (holding u);
  rinv = λ u. refl;
  linv = Quot.ind (λ q. Quot-set _ _) (λ a. Quot.sound refl);
})

bytes_of-IsHom : IsHom bytes_of queued byte_queue
bytes_of-IsHom = record {
  appends = λ q chunk.
      Quot.ind {β = λ q. bytes_of (queued.append q chunk) ≡ bytes_of q ++ chunk}
        (λ q. bytes_set _ _) (λ a. (append-Appended a.0 chunk a.1).bytes) q;
  nexts =
      Quot.ind {β = λ q. ((queued.next q).0, bytes_of (queued.next q).1) ≡ pulled_off (bytes_of q)}
        (λ q. answer_set _ _)
        (λ a i. ((next-Agrees a.0 a.1).answer i, (next-Agrees a.0 a.1).bytes i));
  sizes =
      Quot.ind {β = λ q. queued.buffered q ≡ length (bytes_of q)} (λ q. ℕ_set _ _)
        (λ a. buffered-length a.0);
}
  where
    answer_set : IsSet (Pull × List ℕ)
    answer_set = hlevel

-- The valid assemblers up to their representation, taken as one if they have the same unconsumed
-- bytes, with `append`, `next` and `buffered`, are the byte sequences with concatenation, taking
-- the record off the front, and length: the two types with their operations are equal.
assembler_is_byte_queue : ◌≡◌ {A = Queues} (Queued, queued) (List ℕ, byte_queue)
assembler_is_byte_queue = Queues-path bytes_equiv queued byte_queue bytes_of-IsHom
