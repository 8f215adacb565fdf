-- ===== src/Http/Handler/Bodies.antt =====
-- A posted body: it is waited for, and the wait ends with it and not before.
use so_l.Common.{
  ℕ, zero, suc, ◌≤◌, ◌≡◌, refl, sym, ap, ◌∙◌, Bool, true, false, ltb, Bool-cases, some, List, [],
  ◌∷◌, ◌++◌, map, length, append-nil, append_assoc, replicate, ltb→le, le→ltb, inl, inr,
}
use so_l.Common.Text.{codes}
use so_l.Http.{Request, recv_body, analysis}
use so_l.Http.Headers.{lookup}
use so_l.Http.Analysis.{Env, Answer, analysis_request}
use so_l.Http.Handler.{
  stoi, is_short, Round, stops, goes_on, throws, faults, finish_with, ◌>>=◌, length_of, with_length,
  round, handle_request,
}

-- Chunks behind one another.
abbrev pub concat : List (List ℕ) → List ℕ
concat [] = []
concat (c ∷ cs) = c ++ concat cs

abbrev pub IsStopped : Round → Type 0
IsStopped (stops b r w) = Unit
IsStopped (goes_on r) = ⊥
IsStopped (throws r) = ⊥
IsStopped faults = ⊥

pub finish_with-IsStopped : (a : Answer) → IsStopped (finish_with a)
unfolding finish_with
finish_with-IsStopped a = elim (Bool-cases a.success) [ inl e ↦ rw e tt | inr e ↦ rw e tt ]

pub bind-IsStopped : (m : Round) (f : Request → Round) → IsStopped m → (m >>= f) ≡ m
bind-IsStopped (stops b r w) f h = refl
bind-IsStopped (goes_on r) f h = absurd h
bind-IsStopped (throws r) f h = absurd h
bind-IsStopped faults f h = absurd h

-- The request that waits for a body, with some content.
abbrev pub waiting : Request → List ℕ → Request
waiting r content = record r { state = recv_body; content = content }

module _ (env : Env) (r : Request) (text : List ℕ) (given : Bool × ℕ)
    (found : lookup (codes "Content-length") r.headers ≡ some text)
    (number : stoi text ≡ some given) where
  -- A round whose bytes do not suffice.
  round_short :
      (content bytes : List ℕ)
      → is_short (length (content ++ bytes)) given ≡ true
      → round env (some bytes) (waiting r content) ≡ goes_on (waiting r (content ++ bytes))
  unfolding round length_of with_length
  round_short content bytes short = rw (found, number, short) refl

  -- A round whose bytes suffice answers.
  round_enough :
      (content bytes : List ℕ)
      → is_short (length (content ++ bytes)) given ≡ false
      → round env (some bytes) (waiting r content)
        ≡ finish_with
            (analysis_request env (record r { state = analysis; content = content ++ bytes }))
  unfolding round length_of with_length
  round_enough content bytes enough = rw (found, number, enough) refl

  -- If the peer has closed the connection before the body was there, every `readn` returns no bytes,
  -- and the loop goes on for as many rounds as there are.
  pub body_never_comes :
      (content : List ℕ) (rounds : ℕ)
      → is_short (length content) given ≡ true
      → handle_request env (replicate rounds (some [])) (waiting r content)
        ≡ goes_on (waiting r content)
  unfolding handle_request
  body_never_comes content zero short = refl
  body_never_comes content (suc rounds) short =
      ap (λ m. m >>= λ q. handle_request env (replicate rounds (some [])) q)
        (round_short content [] (rw (append-nil content) short)
          ∙ ap (λ c. goes_on (waiting r c)) (append-nil content))
      ∙ body_never_comes content rounds short

-- What has come by the end of a wait: the chunks used up, and the answer to the request with them.
abbrev pub IsAnswered : Env → Request → ℕ → List ℕ → List (List ℕ) → Round → Type 0
IsAnswered env r n content chunks result =
    (used rest : List (List ℕ)) × (chunks ≡ used ++ rest)
    × (n ≤ length (content ++ concat used))
    × (result
        ≡ finish_with (
            analysis_request env (record r { state = analysis; content = content ++ concat used })))

module _ (env : Env) (r : Request) (text : List ℕ) (n : ℕ)
    (found : lookup (codes "Content-length") r.headers ≡ some text)
    (number : stoi text ≡ some (false, n)) where
  IsAnswered-now :
      (content c : List ℕ) (cs : List (List ℕ))
      → ltb (length (content ++ c)) n ≡ false
      → IsAnswered env r n content
          (c ∷ cs)
          (handle_request env (map some (c ∷ cs)) (waiting r content))
  unfolding handle_request is_short
  IsAnswered-now content c cs enough =
      let answer : Answer =
        analysis_request env (record r { state = analysis; content = content ++ c }) in
      (
        c ∷ [],
        cs,
        refl,
        rw (append-nil c) (ltb→le _ _ enough),
        ap (λ m. m >>= λ q. handle_request env (map some cs) q)
              (round_enough env r text (false, n) found number content c enough)
            ∙ bind-IsStopped (finish_with answer) _ (finish_with-IsStopped answer)
            ∙ ap
                (λ x.
                  finish_with
                    (analysis_request env (record r { state = analysis; content = content ++ x })))
                (sym (append-nil c)),
      )

  -- A wait for a body of `n` bytes ends once they have come: the request is answered, with a first part
  -- of the chunks that holds `n` bytes, together with what was there.
  pub handle_request-IsAnswered :
      (content c : List ℕ) (cs : List (List ℕ))
      → n ≤ length (content ++ concat (c ∷ cs))
      → IsAnswered env r n content
          (c ∷ cs)
          (handle_request env (map some (c ∷ cs)) (waiting r content))
  unfolding handle_request is_short
  handle_request-IsAnswered content c [] h =
      IsAnswered-now content c [] (le→ltb _ _ (rw (append-nil c) at h))
  handle_request-IsAnswered content c (d ∷ ds) h =
      elim (Bool-cases (ltb (length (content ++ c)) n)) [
        | inl short ↦
            let joined : (content ++ (c ++ concat (d ∷ ds)) ≡ (content ++ c) ++ concat (d ∷ ds)) =
              sym (append_assoc content c (concat (d ∷ ds))) in
            let (used, rest, split, bound, result) =
              handle_request-IsAnswered (content ++ c) d ds (rw joined at h) in
            (
              c ∷ used,
              rest,
              ap (◌∷◌ c) split,
              rw (← append_assoc content c (concat used)) bound,
              ap (λ m. m >>= λ q. handle_request env (map some (d ∷ ds)) q)
                    (round_short env r text (false, n) found number content c short)
                  ∙ result
                  ∙ ap
                      (λ x.
                        finish_with
                          (analysis_request env (record r { state = analysis; content = x })))
                      (append_assoc content c (concat used)),
            )
        | inr enough ↦ IsAnswered-now content c (d ∷ ds) enough
      ]
