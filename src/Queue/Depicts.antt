-- ===== src/Queue/Depicts.antt =====
-- How a store in Redis stands for the booth of a concert, and what each write means for it.
use ticket_queue_platform.Prelude.{
  ℕ, ◌<◌, ◌≡◌, refl, sym, ap, subst, ◌∙◌, true, false, not, ◌==◌, if◌then◌else◌, Option, none, some,
  List, [], ◌∷◌, ◌++◌, All, contains, select, Bool-cases, inl, inr, pos, arith,
}
use ticket_queue_platform.Services.Redis.{
  Key, admitted, reconnect, lock, stock, waiting, names, without, number, Value,
}
use ticket_queue_platform.Platform.{Platform}
use ticket_queue_platform.Queue.Booth.{Booth, is_of, set_away, remove, serve, forget}
use ticket_queue_platform.Queue.Line.{IsLine, without_absent, without_head, place_last}
use ticket_queue_platform.Queue.Exclusive.{holds_admission}
use ticket_queue_platform.Queue.Effects.{is_away, served}

names-without :
    (u : ℕ) (es : List (ℕ × ℕ)) → names (without u es) ≡ select (λ v. not (v == u)) (names es)
names-without u [] = refl
names-without u (e ∷ es) = ground (arith, names-without u es)

names-append : (es fs : List (ℕ × ℕ)) → names (es ++ fs) ≡ names es ++ names fs
names-append [] fs = refl
names-append (e ∷ es) fs = ap (λ xs. e.1 ∷ xs) (names-append es fs)

is_of-without :
    (o : Option ℕ) (u v : ℕ)
    → is_of (if is_of o u then none else o) v ≡ (if u == v then false else is_of o v)
is_of-without none u v = ground arith
is_of-without (some x) u v = ground arith

nobody : (o : Option ℕ) → ((u : ℕ) → is_of o u ≡ false) → o ≡ none
nobody none h = refl
nobody (some v) h = absurd (ground (arith, h v))

serve_head :
    (o : Option ℕ) (us : List ℕ) (u : ℕ) (vs : List ℕ) (booth : Booth)
    → o ≡ none
    → us ≡ u ∷ vs
    → serve o us booth ≡ record booth { line = vs; inside = some u }
serve_head o us u vs booth h k = rw (h, k) refl

serve_nobody :
    (o : Option ℕ) (us : List ℕ) (booth : Booth) → o ≡ none → us ≡ [] → serve o us booth ≡ booth
serve_nobody o us booth h k = rw (h, k) refl

serve_later :
    (o : Option ℕ) (us : List ℕ) (u : ℕ) (booth : Booth)
    → is_of o u ≡ true
    → serve o us booth ≡ booth
serve_later none us u booth h = cc
serve_later (some v) us u booth h = refl

module _ (p : Platform) where
  -- The line, the admitted user and the reconnect keys of the concert are those of the booth.
  pub record Depicts (c : ℕ) (s : p.redis.Store) (booth : Booth) : Type 0 where
    pub in_line : names (p.redis.members (waiting c) s) ≡ booth.line
    pub inside : (u : ℕ) → holds_admission p c u s ≡ is_of booth.inside u
    pub away : (u : ℕ) → is_away p c u s ≡ booth.away u

  module _ (c d u : ℕ) (s : p.redis.Store) (booth : Booth) (h : Depicts c s booth) where
    pub zadd-Depicts :
        (t : ℕ)
        → contains u (names (p.redis.members (waiting d) s)) ≡ false
        → (d ≡ c → All (λ e. e.0 < t) (p.redis.members (waiting d) s))
        → Depicts c
            (p.redis.zadd (waiting d) t u s)
            (if d == c then record booth { line = booth.line ++ u ∷ [] } else booth)
    zadd-Depicts t out late = record {
      in_line = elim (Bool-cases (d == c)) [
        | inl here ↦ rw here (joined_line (ground arith))
        | inr there ↦ rw there (
            ap names (ground (arith, p.redis.members-zadd (waiting c) (waiting d) t u s))
            ∙ h.in_line)
      ];
      inside = λ v. ground (arith, h.inside v, p.redis.get-zadd (admitted c v) (waiting d) t u s);
      away = λ v. ground (arith, h.away v, p.redis.get-zadd (reconnect c v) (waiting d) t u s);
    }
      where
        grown :
            d ≡ c
            → p.redis.members (waiting c) (p.redis.zadd (waiting d) t u s)
              ≡ p.redis.members (waiting d) s ++ (t, u) ∷ []
        grown e = ground (
          arith,
          p.redis.members-zadd (waiting c) (waiting d) t u s,
          without_absent u (p.redis.members (waiting d) s) out,
          place_last t u (p.redis.members (waiting d) s) (late e),
        )

        joined_line :
            d ≡ c
            → names (p.redis.members (waiting c) (p.redis.zadd (waiting d) t u s))
              ≡ booth.line ++ u ∷ []
        joined_line e =
            ap names (grown e)
            ∙ names-append (p.redis.members (waiting d) s) ((t, u) ∷ [])
            ∙ ap (λ xs. xs ++ u ∷ [])
                (ap (λ i. names (p.redis.members (waiting i) s)) e ∙ h.in_line)

    pub zrem-Depicts :
        Depicts c (p.redis.zrem (waiting d) u s) (if d == c then remove u booth else booth)
    zrem-Depicts = record {
      in_line = ground (
        arith,
        h.in_line,
        p.redis.members-zrem (waiting c) (waiting d) u s,
        names-without u (p.redis.members (waiting c) s),
      );
      inside = λ v. ground (arith, h.inside v, p.redis.get-zrem (admitted c v) (waiting d) u s);
      away = λ v. ground (arith, h.away v, p.redis.get-zrem (reconnect c v) (waiting d) u s);
    }

    pub set_away-Depicts :
        (x : Value) (n : ℕ)
        → Depicts c
            (p.redis.set_ex (reconnect d u) x n s)
            (if d == c then set_away u true booth else booth)
    set_away-Depicts x n = record {
      in_line = ground (arith, h.in_line, p.redis.members-set_ex (waiting c) (reconnect d u) x n s);
      inside =
          λ v. ground (arith, h.inside v, p.redis.get-set_ex (admitted c v) (reconnect d u) x n s);
      away =
          λ v. ground (arith, h.away v, p.redis.get-set_ex (reconnect c v) (reconnect d u) x n s);
    }

  -- Any key expires, or is deleted.
  pub del-Depicts :
      (c : ℕ) (k : Key) (s : p.redis.Store) (booth : Booth)
      → Depicts c s booth
      → Depicts c (p.redis.del k s) (forget c k booth)
  del-Depicts c (admitted d u) s booth h = record {
    in_line = ground (arith, h.in_line, p.redis.members-del (waiting c) (admitted d u) s);
    inside = λ v. ground (
      arith,
      h.inside v,
      p.redis.get-del (admitted c v) (admitted d u) s,
      is_of-without booth.inside u v,
    );
    away = λ v. ground (arith, h.away v, p.redis.get-del (reconnect c v) (admitted d u) s);
  }
  del-Depicts c (reconnect d u) s booth h = record {
    in_line = ground (arith, h.in_line, p.redis.members-del (waiting c) (reconnect d u) s);
    inside = λ v. ground (arith, h.inside v, p.redis.get-del (admitted c v) (reconnect d u) s);
    away = λ v. ground (arith, h.away v, p.redis.get-del (reconnect c v) (reconnect d u) s);
  }
  del-Depicts c (lock z u) s booth h = record {
    in_line = ground (arith, h.in_line, p.redis.members-del (waiting c) (lock z u) s);
    inside = λ v. ground (arith, h.inside v, p.redis.get-del (admitted c v) (lock z u) s);
    away = λ v. ground (arith, h.away v, p.redis.get-del (reconnect c v) (lock z u) s);
  }
  del-Depicts c (stock z) s booth h = record {
    in_line = ground (arith, h.in_line, p.redis.members-del (waiting c) (stock z) s);
    inside = λ v. ground (arith, h.inside v, p.redis.get-del (admitted c v) (stock z) s);
    away = λ v. ground (arith, h.away v, p.redis.get-del (reconnect c v) (stock z) s);
  }

  module _ (c : ℕ) (s : p.redis.Store) (booth : Booth) (h : Depicts c s booth) where
    -- the store after the head of a line of some concert was served
    served-away : (d u v : ℕ) → is_away p c v (served p d ((0, u) ∷ []) s) ≡ booth.away v
    served-away d u v = ground (
      arith,
      h.away v,
      p.redis.get-set_ex (reconnect c v) (admitted d u) (number (pos 1)) 300
          (p.redis.zrem (waiting d) u s),
      p.redis.get-zrem (reconnect c v) (waiting d) u s,
    )

    pub served_here :
        (es : List (ℕ × ℕ))
        → p.redis.members (waiting c) s ≡ es
        → IsLine es
        → ((u : ℕ) → holds_admission p c u s ≡ false)
        → Depicts c (served p c es s) (serve booth.inside booth.line booth)
    served_here [] e sorted free =
        subst (Depicts c s)
          (sym (
            serve_nobody booth.inside booth.line booth
              (nobody booth.inside (λ u. sym (h.inside u) ∙ free u)) (sym h.in_line ∙ ap names e)))
          h
    served_here (e ∷ es) line sorted free =
        subst (Depicts c (served p c (e ∷ es) s))
          (sym (
            serve_head booth.inside booth.line e.1 (names es) booth
              (nobody booth.inside (λ u. sym (h.inside u) ∙ free u))
              (sym h.in_line ∙ ap names line)))
          (record {
            in_line = ap names (
                ground (
                  arith,
                  p.redis.members-set_ex (waiting c) (admitted c e.1) (number (pos 1)) 300
                      (p.redis.zrem (waiting c) e.1 s),
                  p.redis.members-zrem (waiting c) (waiting c) e.1 s,
                  without_head e es sorted,
                ));
            inside = λ v. ground (
              arith,
              free v,
              p.redis.get-set_ex (admitted c v) (admitted c e.1) (number (pos 1)) 300
                  (p.redis.zrem (waiting c) e.1 s),
              p.redis.get-zrem (admitted c v) (waiting c) e.1 s,
            );
            away = λ v. served-away c e.1 v;
          })

    pub served_there :
        (d : ℕ) (es : List (ℕ × ℕ)) → (d == c) ≡ false → Depicts c (served p d es s) booth
    served_there d [] other = h
    served_there d (e ∷ es) other = record {
      in_line =
          ap names (
            ground (
              arith,
              p.redis.members-set_ex (waiting c) (admitted d e.1) (number (pos 1)) 300
                  (p.redis.zrem (waiting d) e.1 s),
              p.redis.members-zrem (waiting c) (waiting d) e.1 s,
            ))
          ∙ h.in_line;
      inside = λ v. ground (
        arith,
        h.inside v,
        p.redis.get-set_ex (admitted c v) (admitted d e.1) (number (pos 1)) 300
            (p.redis.zrem (waiting d) e.1 s),
        p.redis.get-zrem (admitted c v) (waiting d) e.1 s,
      );
      away = λ v. served-away d e.1 v;
    }

  -- Nobody else is served.
  pub busy-Depicts :
      (c d u : ℕ) (s : p.redis.Store) (booth : Booth)
      → Depicts c s booth
      → holds_admission p d u s ≡ true
      → Depicts c s (if d == c then serve booth.inside booth.line booth else booth)
  busy-Depicts c d u s booth h held = elim (Bool-cases (d == c)) [
    | inl here ↦ rw here (
        subst (Depicts c s)
          (sym (serve_later booth.inside booth.line u booth (ground (arith, h.inside u)))) h)
    | inr there ↦ rw there h
  ]
