-- ===== src/Nested/Async/Calls.antt =====
-- The coroutines do what calls of functions would do, where `GetData` reads the next datum.
use cpp20examples.Prelude.{
  ℕ, zero, suc, ◌+◌, ◌≤◌, ◌≡◌, refl, sym, ap, ◌∙◌, arith, Bool, true, false, List, [], ◌∷◌, ◌++◌,
  append-nil, append_assoc,
}
use cpp20examples.Prelude.Exec.{Exec, ok, undefined, out_of_fuel, ◌>>=◌}
use cpp20examples.Prelude.Int.{ℤ}
use cpp20examples.Coroutine.{Item}
use cpp20examples.Nested.Async.{
  Links, unlinked, Code, get_data, co_return, Promise, propagate, Outcome, printed_before, resume,
  spawn_task, resume_with_data, feed,
}
use cpp20examples.Nested.Async.Meaning.{
  waiting_links, running_links, Evals, prints, reads, looks, calls, returns, Rooted, Same,
  RootedAll, above, return_to, before, Rooted-has_scheduler, Same-above, Same-self, Rooted-above,
  Rooted-RootedAll, Same-trans, before-before, before-nil, feed-printed_before,
}

-- The run `e` comes to where a code has printed `out` and returns `v` to the coroutine that waits for
-- it, with the data `js` to come; `n` steps are spent of the fuel `f`, which each datum makes `F` again.
record Returned (F f n : ℕ) (out : List Item) (v : ℤ) (js : List ℤ) (parents : List Promise)
    (e : Exec (List Item × ℤ)) : Type 0 where
  left : ℕ
  above_it : List Promise
  enough : f ≤ left + n
  within : left ≤ F
  same : Same parents above_it
  rooted : RootedAll above_it
  run : e ≡ (return_to left v above_it >>= (λ o. feed F o js) >>= before out)

-- A `println` before it.
after_println :
    (F : ℕ) (out : List Item) (js : List ℤ) (r : Exec Outcome)
    → (r >>= (λ o. ok (printed_before out o)) >>= (λ o. feed F o js))
      ≡ (r >>= (λ o. feed F o js) >>= before out)
after_println F out js (ok o) = feed-printed_before F js out o
after_println F out js undefined = refl
after_println F out js out_of_fuel = refl

Returned-println :
    {F f n : ℕ} {v : ℤ} {js : List ℤ} {parents : List Promise} (out out' : List Item)
    (r : Exec Outcome) (js' : List ℤ)
    → Returned F f n out' v js parents (r >>= λ o. feed F o js')
    → Returned F
        (suc f)
        (suc n)
        (out ++ out')
        v
        js
        parents
        (r >>= (λ o. ok (printed_before out o)) >>= λ o. feed F o js')
Returned-println {F} out out' r js' t = record {
  left = t.left;
  above_it = t.above_it;
  enough = omega (arith, t.enough);
  within = t.within;
  same = t.same;
  rooted = t.rooted;
  run =
      after_println F out js' r
      ∙ ap (λ (e : Exec (List Item × ℤ)). e >>= before out) t.run
      ∙ before-before out out' _;
}

Evals-positive :
    {c : Code} {js : List ℤ} {out : List Item} {v : ℤ} {n : ℕ} → Evals c js out v n → 1 ≤ n
Evals-positive (prints t) = omega arith
Evals-positive (reads t) = omega arith
Evals-positive (looks t) = omega arith
Evals-positive (calls t t') = omega arith
Evals-positive returns = omega arith

-- A coroutine that waits for data, and is resumed with it.
get_data-feed :
    (F f : ℕ) (k : ℤ → Code) (s : Bool) (parents : List Promise) (j : ℤ) (js : List ℤ)
    → Rooted s parents
    → (resume (suc f) (get_data k) false s running_links parents >>= λ o. feed F o (j ∷ js))
      ≡ (resume F (k j) false true running_links (above s parents) >>= λ o. feed F o js)
unfolding resume feed resume_with_data
get_data-feed F f k true parents j js r =
    after_println F [] js (resume F (k j) false true running_links parents) ∙ sym (before-nil _)
get_data-feed F f k false parents j js r =
    rw (Rooted-has_scheduler false running_links k parents r) (
      after_println F [] js (resume F (k j) false true running_links (propagate parents))
      ∙ sym (before-nil _))

co_return-return_to :
    (f : ℕ) (v : ℤ) (s : Bool) (parents : List Promise)
    → resume (suc f) (co_return v) false s running_links parents ≡ return_to f v parents
unfolding resume
co_return-return_to f v s [] = refl
co_return-return_to f v s (p ∷ parents) = refl

-- A child has returned, and the coroutine that has called it goes on.
Returned-call :
    (F f n n' left : ℕ) (out out' : List Item) (v v' : ℤ) (js js' : List ℤ) (s : Bool)
    (k : ℤ → Code) (parents : List Promise) (e : Exec (List Item × ℤ)) (above_it : List Promise)
    → Same (record { scheduler = s; links = waiting_links; goes_on = k } ∷ parents) above_it
    → RootedAll above_it
    → f ≤ left + n
    → e ≡ (return_to left v above_it >>= (λ o. feed F o js) >>= before out)
    → ((s' : Bool) (qs : List Promise)
        → Rooted s' qs
        → Returned F left n' out' v' js' qs
            (resume left (k v) false s' running_links qs >>= λ o. feed F o js))
    → Returned F (suc f) (suc (n + n')) (out ++ out') v' js' parents e
Returned-call F f n n' left out out' v v' js js' s k parents e [] same rooted h run ih = absurd same
Returned-call F f n n' left out out' v v' js js' s k parents e (q ∷ qs) same rooted h run ih =
    let t = ih q.scheduler qs rooted in
    record {
      left = t.left;
      above_it = t.above_it;
      enough = omega (arith, t.enough);
      within = t.within;
      same = Same-trans parents qs t.above_it same.2 t.same;
      rooted = t.rooted;
      run =
          run
          ∙ ap
              (λ (g : ℤ → Code).
                resume left (g v) false q.scheduler (unlinked q.links) qs
                >>= (λ o. feed F o js)
                >>= before out)
              (sym same.0)
          ∙ ap
              (λ (l : Links).
                resume left (k v) false q.scheduler (unlinked l) qs
                >>= (λ o. feed F o js)
                >>= before out)
              (sym same.1)
          ∙ ap (λ (x : Exec (List Item × ℤ)). x >>= before out) t.run
          ∙ before-before out out' _;
    }

Evals-Returned :
    {c : Code} {js : List ℤ} {out : List Item} {v : ℤ} {n : ℕ} (F f : ℕ) (s : Bool)
    (parents : List Promise) (js' : List ℤ)
    → Evals c js out v n
    → n ≤ f
    → f ≤ F
    → Rooted s parents
    → Returned F f n out v js' parents
        (resume f c false s running_links parents >>= λ o. feed F o (js ++ js'))
unfolding resume
Evals-Returned F zero s parents js' t h w r = absurd (omega (arith, Evals-positive t))
Evals-Returned F (suc f) s parents js' (prints {out} {out'} {c} {js} t) h w r =
    Returned-println out out' (resume f c false s running_links parents) (js ++ js')
      (Evals-Returned F f s parents js' t (omega arith) (omega arith) r)
Evals-Returned F (suc f) s parents js' (reads {k} {j} {js = js} t) h w r =
    let t' =
      Evals-Returned F F true (above s parents) js' t (omega arith) (omega arith)
        (Rooted-above s parents r) in
    record {
      left = t'.left;
      above_it = t'.above_it;
      enough = omega (arith, t'.enough);
      within = t'.within;
      same = Same-trans parents (above s parents) t'.above_it (Same-above s parents) t'.same;
      rooted = t'.rooted;
      run = get_data-feed F f k s parents j (js ++ js') r ∙ t'.run;
    }
Evals-Returned F (suc f) s parents js' (looks t) h w r =
    let t' = Evals-Returned F f s parents js' t (omega arith) (omega arith) r in
    record {
      left = t'.left;
      above_it = t'.above_it;
      enough = omega (arith, t'.enough);
      within = t'.within;
      same = t'.same;
      rooted = t'.rooted;
      run = t'.run;
    }
Evals-Returned F (suc f) s parents js'
      (calls {child} {k} {js} {js' = js''} {out} {out'} {v} {v'} {n} {n'} t t') h w r =
    let chain = record { scheduler = s; links = waiting_links; goes_on = k } ∷ parents in
    let t1 = Evals-Returned F f false chain (js'' ++ js') t (omega arith) (omega arith) r in
    Returned-call F f n n' t1.left out out' v v' (js'' ++ js') js' s k parents _ t1.above_it t1.same
      t1.rooted t1.enough
      (ap (λ (l : List ℤ). resume f child false false running_links chain >>= λ o. feed F o l)
          (append_assoc js js'' js')
        ∙ t1.run)
      (λ s' qs r'. Evals-Returned F t1.left s' qs js' t' (omega (arith, t1.enough)) t1.within r')
Evals-Returned F (suc f) s parents js' (returns {v}) h w r = record {
  left = f;
  above_it = parents;
  enough = omega arith;
  within = omega arith;
  same = Same-self parents;
  rooted = Rooted-RootedAll s parents r;
  run =
      ap (λ (x : Exec Outcome). x >>= λ o. feed F o js') (co_return-return_to f v s parents)
      ∙ before-nil _;
}

Same-nil : (ps : List Promise) → Same [] ps → ps ≡ []
Same-nil [] h = refl
Same-nil (p ∷ ps) h = absurd h

-- If a code as a function reads the data `js`, prints `out` and returns `v`, then `spawn_task` with it,
-- `resumeWithData` for each of the data and `result` print `out` and give `v`, given enough fuel. So no
-- assertion fails: a coroutine that waits for data finds the scheduler of the task, and nothing registered
-- with it; one that awaits another has no child, and the other no parent; and none returns twice.
pub async_lem :
    {c : Code} {js : List ℤ} {out : List Item} {v : ℤ} {n : ℕ} (fuel : ℕ)
    → Evals c js out v n
    → n ≤ fuel
    → (spawn_task fuel c >>= λ o. feed fuel o js) ≡ ok (out, v)
unfolding spawn_task feed
async_lem {c} {js} {out} {v} fuel t h =
    let r = Evals-Returned fuel fuel true [] [] t h (omega arith) refl in
    ap (λ (l : List ℤ). spawn_task fuel c >>= λ o. feed fuel o l) (sym (append-nil js))
    ∙ r.run
    ∙ ap (λ (ps : List Promise). return_to r.left v ps >>= (λ o. feed fuel o []) >>= before out)
        (Same-nil r.above_it r.same)
    ∙ ap (λ (l : List Item). ok (l, v)) (append-nil out)
