-- ===== src/Agent/Questions.antt =====
-- What `answersQuestion` tests: the questions of two messages, one by one.
use zonedns.Prelude.{◌≡◌, ◌↔◌, refl, true, List, [], ◌∷◌, length, arith, eq_iff, nat_eq}
use zonedns.Text.{str_eq, str_beq_iff, equal_fold, to_lower}
use zonedns.Dns.{Question, Msg}
use zonedns.Agent.{same_questions, answers_question}

-- The same questions in the same order, the names up to case.
abbrev pub AreSame : List Question → List Question → Type 0
AreSame [] [] = Unit
AreSame [] (p ∷ ps) = ⊥
AreSame (q ∷ qs) [] = ⊥
AreSame (q ∷ qs) (p ∷ ps) =
    ((to_lower q.name ≡ to_lower p.name) × (q.qtype ≡ p.qtype) × (q.qclass ≡ p.qclass))
    × AreSame qs ps

AreSame-length : (qs ps : List Question) → AreSame qs ps → length ps ≡ length qs
AreSame-length [] [] k = refl
AreSame-length [] (p ∷ ps) k = absurd k
AreSame-length (q ∷ qs) [] k = absurd k
AreSame-length (q ∷ qs) (p ∷ ps) (_, k) = omega (arith, AreSame-length qs ps k)

same_questions-AreSame :
    (qs ps : List Question) → length ps ≡ length qs → same_questions qs ps ≡ true → AreSame qs ps
unfolding same_questions equal_fold
same_questions-AreSame [] [] e h = tt
same_questions-AreSame [] (p ∷ ps) e h = absurd (omega (arith, e))
same_questions-AreSame (q ∷ qs) [] e h = absurd (omega (arith, e))
same_questions-AreSame (q ∷ qs) (p ∷ ps) e h =
    let name = str_beq_iff (to_lower q.name) (to_lower p.name) in
    (
      (
        name.0 (ground (arith, h)),
        ground (arith, h, eq_iff q.qtype p.qtype),
        ground (arith, h, eq_iff q.qclass p.qclass),
      ),
      same_questions-AreSame qs ps (omega (arith, e)) (ground (arith, h)),
    )

AreSame-same_questions : (qs ps : List Question) → AreSame qs ps → same_questions qs ps ≡ true
unfolding same_questions equal_fold
AreSame-same_questions [] ps k = refl
AreSame-same_questions (q ∷ qs) [] k = absurd k
AreSame-same_questions (q ∷ qs) (p ∷ ps) ((name, qtype, qclass), k) = ground (
  arith,
  (str_beq_iff (to_lower q.name) (to_lower p.name)).1 name,
  (eq_iff q.qtype p.qtype).1 qtype,
  (eq_iff q.qclass p.qclass).1 qclass,
  AreSame-same_questions qs ps k,
)

pub answers_question_iff :
    (sent answer : Msg)
    → (answers_question sent answer ≡ true) ↔ AreSame sent.question answer.question
unfolding answers_question
answers_question_iff sent answer = (
  λ h.
      same_questions-AreSame sent.question answer.question
        (ground (arith, h, eq_iff (length answer.question) (length sent.question)))
        (ground (arith, h)),
  λ k. ground (
    arith,
    eq_iff (length answer.question) (length sent.question),
    AreSame-length sent.question answer.question k,
    AreSame-same_questions sent.question answer.question k,
  ),
)

AreSame-self : (qs : List Question) → AreSame qs qs
AreSame-self [] = tt
AreSame-self (q ∷ qs) = ((refl, refl, refl), AreSame-self qs)

pub AreSame-of_eq : (qs ps : List Question) → ps ≡ qs → AreSame qs ps
AreSame-of_eq qs ps e = rw e (AreSame-self qs)
