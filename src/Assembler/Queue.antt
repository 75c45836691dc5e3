-- ===== src/Assembler/Queue.antt =====
-- dbn_reader.hpp: `RecordAssembler` as its clients see it: a queue of bytes that hands out records.
use trading_engine_hh.Base.{
  ℕ, zero, suc, ◌*◌, ◌≡◌, refl, sym, ap, ◌∙◌, List, [], ◌∷◌, ◌++◌, length, take, drop, ltb,
  take-append, drop-append, length-append, if◌then◌else◌, false, le→ltb, arith,
}
use trading_engine_hh.Frame.{IsRecord, IsPartial, IsCorrupt}
use trading_engine_hh.Assembler
use trading_engine_hh.Assembler.{
  record_pulled, need_more, corrupt, Pull, RecordAssembler, append, view, buffered,
}
use trading_engine_hh.Assembler.Buffer.{
  IsValid, append-Appended, record_at_front, ran_dry, broken, next-Pulls, buffered-length,
}

-- The operations of the assembler, over any state.
pub record PullQueue (Q : Type 0) : Type 0 where
  pub append : Q → List ℕ → Q
  pub next : Q → Pull × Q
  pub buffered : Q → ℕ

abbrev pub assembler_queue : PullQueue RecordAssembler
assembler_queue = record { append = append; next = Assembler.next; buffered = buffered }

abbrev pub pulled : List ℕ → Pull
pulled rec = record { status = record_pulled; bytes = rec }

-- What a queue of nothing but bytes answers: the first byte of a record is its length in words.
abbrev pub pulled_off : List ℕ → Pull × List ℕ
pulled_off [] = (record { status = need_more; bytes = [] }, [])
pulled_off (l ∷ []) = (record { status = need_more; bytes = [] }, l ∷ [])
pulled_off (zero ∷ t ∷ body) = (record { status = corrupt; bytes = [] }, zero ∷ t ∷ body)
pulled_off (suc k ∷ t ∷ body) =
    let u : List ℕ = suc k ∷ t ∷ body in
    if ltb (length u) (4 * suc k)
    then (record { status = need_more; bytes = [] }, u)
    else (pulled (take (4 * suc k) u), drop (4 * suc k) u)

abbrev pub byte_queue : PullQueue (List ℕ)
byte_queue = record { append = λ u chunk. u ++ chunk; next = pulled_off; buffered = length }

-- A client's calls, and the answers to those that have one.
pub data Call : Type 0 where
  appending : List ℕ → Call
  pulling asking_size : Call

pub data Answer : Type 0 where
  pull_answer : Pull → Answer
  size_answer : ℕ → Answer

abbrev pub answers : {Q : Type 0} → PullQueue Q → Q → List Call → List Answer
answers queue q [] = []
answers queue q (appending chunk ∷ calls) = answers queue (queue.append q chunk) calls
answers queue q (pulling ∷ calls) =
    pull_answer (queue.next q).0 ∷ answers queue (queue.next q).1 calls
answers queue q (asking_size ∷ calls) = size_answer (queue.buffered q) ∷ answers queue q calls

pulled_off-IsRecord :
    (rec rest : List ℕ) → IsRecord rec → pulled_off (rec ++ rest) ≡ (pulled rec, rest)
pulled_off-IsRecord [] rest r = absurd r
pulled_off-IsRecord (l ∷ []) rest r = absurd r
pulled_off-IsRecord (zero ∷ t ∷ body) rest r = absurd (omega arith)
pulled_off-IsRecord (suc k ∷ t ∷ body) rest r =
    let size : 4 * suc k ≡ length (suc k ∷ t ∷ body) = omega arith in
    let long : ltb (length (suc k ∷ t ∷ (body ++ rest))) (4 * suc k) ≡ false =
      le→ltb _ _ (omega (arith, length-append body rest)) in
    rw long (λ i. (
      pulled (take-append (suc k ∷ t ∷ body) rest (4 * suc k) size i),
      drop-append (suc k ∷ t ∷ body) rest (4 * suc k) size i,
    ))

pulled_off-IsPartial :
    (u : List ℕ) → IsPartial u → pulled_off u ≡ (record { status = need_more; bytes = [] }, u)
pulled_off-IsPartial [] p = refl
pulled_off-IsPartial (l ∷ []) p = refl
pulled_off-IsPartial (zero ∷ t ∷ body) p = absurd (omega arith)
pulled_off-IsPartial (suc k ∷ t ∷ body) p = ground arith

pulled_off-IsCorrupt :
    (u : List ℕ) → IsCorrupt u → pulled_off u ≡ (record { status = corrupt; bytes = [] }, u)
pulled_off-IsCorrupt [] c = absurd c
pulled_off-IsCorrupt (l ∷ []) c = absurd c
pulled_off-IsCorrupt (zero ∷ t ∷ body) c = refl
pulled_off-IsCorrupt (suc k ∷ t ∷ body) c = absurd (omega arith)

-- The assembler and the queue of the bytes that it has not consumed: an answer, what is left, and
-- a valid assembler.
pub record Agrees (a : RecordAssembler) (p : Pull × RecordAssembler) : Type 0 where
  pub answer : p.0 ≡ (pulled_off (view a)).0
  pub bytes : view p.1 ≡ (pulled_off (view a)).1
  pub valid : IsValid p.1

-- No record is pulled, for the same reason.
unchanged-Agrees :
    (a : RecordAssembler) (p : Pull)
    → IsValid a
    → Assembler.next a ≡ (p, a)
    → pulled_off (view a) ≡ (p, view a)
    → Agrees a (Assembler.next a)
unchanged-Agrees a p v e same = rw e (record {
  answer = ap (λ (p : Pull × List ℕ). p.0) (sym same);
  bytes = ap (λ (p : Pull × List ℕ). p.1) (sym same);
  valid = v;
})

pub next-Agrees : (a : RecordAssembler) → IsValid a → Agrees a (Assembler.next a)
next-Agrees a v = elim (next-Pulls a v) [
  | record_at_front rec a' e r split v' same ↦
      let at_front = ap pulled_off split ∙ pulled_off-IsRecord rec (view a') r in
      rw e (record {
        answer = ap (λ (p : Pull × List ℕ). p.0) (sym at_front);
        bytes = ap (λ (p : Pull × List ℕ). p.1) (sym at_front);
        valid = v';
      })
  | ran_dry e p ↦ unchanged-Agrees a _ v e (pulled_off-IsPartial (view a) p)
  | broken e c ↦ unchanged-Agrees a _ v e (pulled_off-IsCorrupt (view a) c)
]

-- From a valid assembler, a client that appends, pulls and asks for the buffered size in any order
-- gets the answers that a queue of nothing but the bytes not yet consumed would give: a pull takes
-- the record at the front, and answers `need_more` for a part of one and `corrupt` for one of no
-- words, without taking anything.
pub answers-byte_queue :
    (a : RecordAssembler) (calls : List Call)
    → IsValid a
    → answers assembler_queue a calls ≡ answers byte_queue (view a) calls
answers-byte_queue a [] v = refl
answers-byte_queue a (appending chunk ∷ calls) v =
    let done = append-Appended a chunk v in
    answers-byte_queue (append a chunk) calls done.valid
    ∙ ap (λ u. answers byte_queue u calls) done.bytes
answers-byte_queue a (pulling ∷ calls) v =
    let done = next-Agrees a v in
    cc (done.answer, answers-byte_queue (Assembler.next a).1 calls done.valid, done.bytes)
answers-byte_queue a (asking_size ∷ calls) v = cc (buffered-length a, answers-byte_queue a calls v)
