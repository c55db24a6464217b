-- ===== src/Serialize/Sequence.antt =====
-- The functions run once each, in the order of their posts.
use homecontrol_server.Common.{
  ◌≡◌, refl, ap, sym, ◌∙◌, Bool, true, false, List, [], ◌∷◌, ◌++◌, append-nil, append_assoc,
}
use homecontrol_server.Serialize.{
  Function, runs, stops, SerializeFunctions, post_function, post_all, call_function, call_all,
  handler,
}

module _ {S : Type 0} where
  -- One function after the other on the state.
  pub in_sequence : List (S → S) → S → S
  in_sequence [] s = s
  in_sequence (f ∷ fs) s = in_sequence fs (f s)

  pub posts : List (S → S) → List (Function S)
  posts [] = []
  posts (f ∷ fs) = runs f ∷ posts fs

  -- The functions of all rounds.
  pub all_of : List (List (S → S)) → List (S → S)
  all_of [] = []
  all_of (fs ∷ rest) = fs ++ all_of rest

  -- The rounds, with the destructor's function behind the last post.
  pub rounds : List (List (S → S)) → List (S → S) → List (List (Function S))
  unfolding posts
  rounds [] last = (posts last ++ stops ∷ []) ∷ []
  rounds (fs ∷ rest) last = posts fs ∷ rounds rest last

  in_sequence-append :
      (fs gs : List (S → S)) (s : S) → in_sequence (fs ++ gs) s ≡ in_sequence gs (in_sequence fs s)
  unfolding in_sequence
  in_sequence-append [] gs s = refl
  in_sequence-append (f ∷ fs) gs s = in_sequence-append fs gs (f s)

  post_all_lem :
      (fs : List (Function S)) (r : SerializeFunctions S)
      → post_all fs r ≡ record r { queue = r.queue ++ fs }
  unfolding post_all post_function
  post_all_lem [] r = ap (λ q. record r { queue = q }) (sym (append-nil r.queue))
  post_all_lem (f ∷ fs) r =
      post_all_lem fs (post_function f r)
      ∙ ap (λ q. record r { queue = q }) (append_assoc r.queue (f ∷ []) fs)

  abbrev at : Bool → S → SerializeFunctions S
  at b s = record { stop = b; queue = []; state = s }

  call_all-posts :
      (fs : List (S → S)) (gs : List (Function S)) (s : S)
      → call_all (posts fs ++ gs) (at false s) ≡ call_all gs (at false (in_sequence fs s))
  unfolding call_all call_function posts in_sequence
  call_all-posts [] gs s = refl
  call_all-posts (f ∷ fs) gs s = call_all-posts fs gs (f s)

  call_all-only :
      (fs : List (S → S)) (s : S) → call_all (posts fs) (at false s) ≡ at false (in_sequence fs s)
  unfolding call_all call_function posts in_sequence
  call_all-only [] s = refl
  call_all-only (f ∷ fs) s = call_all-only fs (f s)

  stopped :
      (last : List (S → S)) (s : S)
      → handler [] (call_all (posts last ++ stops ∷ []) (at false s)) ≡ at true (in_sequence last s)
  unfolding handler call_all call_function
  stopped last s = call_all-posts last (stops ∷ []) s

  handler_step :
      (posted : List (Function S)) (later : List (List (Function S))) (s : S)
      → handler (posted ∷ later) (at false s) ≡ handler later (call_all posted (at false s))
  unfolding handler
  handler_step posted later s = rw (post_all_lem posted (at false s))

  -- Every function that is posted before the destructor runs is called once, in the order of the
  -- posts, however the posts fall into rounds of the thread; the thread ends with an empty queue.
  pub handler_runs_all :
      (batches : List (List (S → S))) (last : List (S → S)) (s : S)
      → handler (rounds batches last) (record { stop = false; queue = []; state = s })
        ≡ record { stop = true; queue = []; state = in_sequence (all_of batches ++ last) s }
  unfolding rounds all_of
  handler_runs_all [] last s = handler_step (posts last ++ stops ∷ []) [] s ∙ stopped last s
  handler_runs_all (fs ∷ rest) last s =
      handler_step (posts fs) (rounds rest last) s
      ∙ ap (handler (rounds rest last)) (call_all-only fs s)
      ∙ handler_runs_all rest last (in_sequence fs s)
      ∙ ap (at true) (
          sym (in_sequence-append fs (all_of rest ++ last) s)
          ∙ ap (λ gs. in_sequence gs s) (sym (append_assoc fs (all_of rest) last)))
