-- ===== src/Ceph/Serving.antt =====
-- Which runs of `maybe_exec_wasm` (src/cephclass/cephclass.cpp) succeed, and what they leave.
use faasm.Prelude.{
  ℕ, ◌≡◌, ◌↔◌, refl, sym, ap, subst, ◌∙◌, Bool, true, false, ◌||◌, Option, none, some, List, [],
  ◌∷◌, ◌==◌, if◌then◌else◌, arith, Bool-cases, inl, inr,
}
use faasm.Ceph.Session.{
  Body, ndp_end, other_type, ndp_read, ndp_write, Input, times_out, invalid, message, Reply,
  data_reply, NdpResult, ndp_ok, ndp_process_locally, ndp_error, First, cannot_connect, cannot_send,
  first_times_out, first_invalid, first_response, responded, forwarded, Round, ends, read_round,
  write_round, body_round, then_loop, respond, start, serve, maybe_exec_wasm,
}

module _ {O : Type 0} (cls_cxx_read : O → ℕ → ℕ → Option (List ℕ))
    (cls_cxx_write : O → ℕ → List ℕ → Option O) where
  -- The messages of a call are reads and writes of the object that succeed, each answered, up to the
  -- end: from an object, with the replies, to an object.
  pub data Serves (call_id : ℕ) : O → List Input → List Reply → O → Type 0 where
    ended :
        {o : O} (sends : Bool) (rest : List Input)
        → Serves call_id o (message call_id ndp_end sends ∷ rest) [] o
    read :
        {o o' : O} {inputs : List Input} {replies : List Reply} (offset upto : ℕ) (bytes : List ℕ)
        → cls_cxx_read o offset upto ≡ some bytes
        → Serves call_id o inputs replies o'
        → Serves call_id o
            (message call_id (ndp_read offset upto) true ∷ inputs)
            (data_reply bytes ∷ replies)
            o'
    written :
        {o o' o'' : O} {inputs : List Input} {replies : List Reply} (offset : ℕ) (bytes : List ℕ)
        → cls_cxx_write o offset bytes ≡ some o'
        → Serves call_id o' inputs replies o''
        → Serves call_id o
            (message call_id (ndp_write offset bytes) true ∷ inputs)
            (data_reply (111 ∷ 107 ∷ []) ∷ replies)
            o''

  serve_complete :
      (call_id : ℕ) (o o' : O) (inputs : List Input) (replies : List Reply)
      → Serves call_id o inputs replies o'
      → serve cls_cxx_read cls_cxx_write call_id inputs o ≡ (replies, o', some ndp_ok)
  unfolding serve
  serve_complete call_id o o' inputs replies (ended sends rest) =
      let same : (call_id == call_id) ≡ true = ground arith in rw same refl
  serve_complete call_id o o' inputs replies (read offset upto bytes e h) =
      let same : (call_id == call_id) ≡ true = ground arith in
      rw (same, e, serve_complete call_id _ _ _ _ h) refl
  serve_complete call_id o o' inputs replies (written offset bytes e h) =
      let same : (call_id == call_id) ≡ true = ground arith in
      rw (same, e, serve_complete call_id _ _ _ _ h) refl

  abbrev served : ℕ → List Input → O → List Reply × O × Option NdpResult
  served = serve cls_cxx_read cls_cxx_write

  -- When the loop ends well, its messages were served as `Serves` says.
  abbrev Sound : ℕ → O → List Input → Type 0
  Sound call_id o inputs =
      (served call_id inputs o).2 ≡ some ndp_ok
      → Serves call_id o inputs (served call_id inputs o).0 (served call_id inputs o).1

  abbrev rest_of : ℕ → List Input → Round O → List Reply × O × Option NdpResult
  rest_of call_id inputs r = then_loop (served call_id inputs) r

  -- The same for one round and what follows it.
  abbrev RoundSound : ℕ → O → Input → List Input → Round O → Type 0
  RoundSound call_id o input inputs r =
      (rest_of call_id inputs r).2 ≡ some ndp_ok
      → Serves call_id o (input ∷ inputs) (rest_of call_id inputs r).0 (rest_of call_id inputs r).1

  read-RoundSound :
      (call_id : ℕ) (o : O) (offset upto : ℕ) (sends : Bool) (inputs : List Input)
      → ((o' : O) → Sound call_id o' inputs)
      → (answer : Option (List ℕ)) → cls_cxx_read o offset upto ≡ answer
      → RoundSound call_id o
          (message call_id (ndp_read offset upto) sends)
          inputs
          (read_round sends o answer)
  read-RoundSound call_id o offset upto sends inputs ih none e h = cc
  read-RoundSound call_id o offset upto false inputs ih (some bytes) e h = cc
  read-RoundSound call_id o offset upto true inputs ih (some bytes) e h =
      read offset upto bytes e (ih o h)

  write-RoundSound :
      (call_id : ℕ) (o : O) (offset : ℕ) (bytes : List ℕ) (sends : Bool) (inputs : List Input)
      → ((o' : O) → Sound call_id o' inputs)
      → (answer : Option O) → cls_cxx_write o offset bytes ≡ answer
      → RoundSound call_id o
          (message call_id (ndp_write offset bytes) sends)
          inputs
          (write_round sends o answer)
  write-RoundSound call_id o offset bytes sends inputs ih none e h = cc
  write-RoundSound call_id o offset bytes false inputs ih (some o') e h = cc
  write-RoundSound call_id o offset bytes true inputs ih (some o') e h =
      written offset bytes e (ih o' h)

  body-RoundSound :
      (call_id : ℕ) (o : O) (body : Body) (sends : Bool) (inputs : List Input)
      → ((o' : O) → Sound call_id o' inputs)
      → RoundSound call_id o
          (message call_id body sends)
          inputs
          (body_round cls_cxx_read cls_cxx_write o sends body)
  body-RoundSound call_id o ndp_end sends inputs ih h = ended sends inputs
  body-RoundSound call_id o other_type sends inputs ih h = cc
  body-RoundSound call_id o (ndp_read offset upto) sends inputs ih h =
      read-RoundSound call_id o offset upto sends inputs ih (cls_cxx_read o offset upto) refl h
  body-RoundSound call_id o (ndp_write offset bytes) sends inputs ih h =
      write-RoundSound call_id o offset bytes sends inputs ih (cls_cxx_write o offset bytes) refl h

  guarded-RoundSound :
      (call_id id : ℕ) (o : O) (body : Body) (sends : Bool) (inputs : List Input)
      → ((o' : O) → Sound call_id o' inputs)
      → (mine : Bool) → (id == call_id) ≡ mine
      → RoundSound call_id o
          (message id body sends)
          inputs
          (if mine then body_round cls_cxx_read cls_cxx_write o sends body else ends [] o ndp_error)
  guarded-RoundSound call_id id o body sends inputs ih false e h = cc
  guarded-RoundSound call_id id o body sends inputs ih true e h =
      let same : call_id ≡ id = ground arith in
      subst
        (λ i.
          Serves call_id o (message i body sends ∷ inputs)
            (rest_of call_id inputs (body_round cls_cxx_read cls_cxx_write o sends body)).0
            (rest_of call_id inputs (body_round cls_cxx_read cls_cxx_write o sends body)).1)
        same (body-RoundSound call_id o body sends inputs ih h)

  serve-Sound : (call_id : ℕ) (inputs : List Input) (o : O) → Sound call_id o inputs
  unfolding serve
  serve-Sound call_id [] o h = cc
  serve-Sound call_id (times_out ∷ inputs) o h = cc
  serve-Sound call_id (invalid ∷ inputs) o h = cc
  serve-Sound call_id (message id body sends ∷ inputs) o h =
      guarded-RoundSound call_id id o body sends inputs (serve-Sound call_id inputs) (id == call_id)
        refl h

  respond-ok :
      (call_id : ℕ) (r : List Reply × O × Option NdpResult) (replies : List Reply) (o' : O)
      → respond call_id r ≡ (responded call_id ndp_ok, replies, o')
      → (r.2 ≡ some ndp_ok) × (r.0 ≡ replies) × (r.1 ≡ o')
  respond-ok call_id (rs, o, none) replies o' e = let bad = ap (λ t. t.0) e in cc
  respond-ok call_id (rs, o, some ndp_process_locally) replies o' e =
      let bad = ap (λ t. t.0) e in cc
  respond-ok call_id (rs, o, some ndp_error) replies o' e = let bad = ap (λ t. t.0) e in cc
  respond-ok call_id (rs, o, some ndp_ok) replies o' e = (refl, ap (λ t. t.1) e, ap (λ t. t.2) e)

  -- A call that may read or write, and whose request carries an id, responds with NdpResult_Ok
  -- exactly when the first response is one to that id with NdpResult_Ok and the messages that
  -- follow are reads and writes of the object that succeed, each answered, up to an end. It has then
  -- sent the bytes of each read and "ok" for each write, in order, and the object is what the
  -- writes make of it.
  pub maybe_exec_wasm-Serves :
      (read_allowed write_allowed : Bool) (call_id : ℕ) (first : First) (o : O)
      (inputs : List Input)
      → (read_allowed || write_allowed) ≡ true
      → (replies : List Reply) (o' : O)
      → (maybe_exec_wasm cls_cxx_read cls_cxx_write read_allowed write_allowed
            (some call_id)
            first
            o
            inputs
          ≡ (responded call_id ndp_ok, replies, o'))
        ↔ ((first ≡ first_response call_id true) × Serves call_id o inputs replies o')
  unfolding maybe_exec_wasm
  maybe_exec_wasm-Serves r w call_id first o inputs allowed replies o' =
      rw allowed (λ e. started first e, λ h. back h)
    where
      served_as :
          respond call_id (served call_id inputs o) ≡ (responded call_id ndp_ok, replies, o')
          → Serves call_id o inputs replies o'
      served_as e =
          let (ok, rs, last) = respond-ok call_id (served call_id inputs o) replies o' e in
          subst (λ t. Serves call_id o inputs t o') rs
            (subst (λ t. Serves call_id o inputs (served call_id inputs o).0 t) last
              (serve-Sound call_id inputs o ok))

      by_result :
          (id : ℕ) (ok : Bool)
          → id ≡ call_id
          → (if ok then respond call_id (served call_id inputs o) else (forwarded, [], o))
            ≡ (responded call_id ndp_ok, replies, o')
          → (first_response id ok ≡ first_response call_id true)
            × Serves call_id o inputs replies o'
      by_result id false m e = let bad = ap (λ t. t.0) e in cc
      by_result id true m e = (ap (λ i. first_response i true) m, served_as e)

      back :
          (first ≡ first_response call_id true) × Serves call_id o inputs replies o'
          → start cls_cxx_read cls_cxx_write call_id first o inputs
            ≡ (responded call_id ndp_ok, replies, o')
      back h =
          let same : (call_id == call_id) ≡ true = ground arith in
          rw (h.0, same) (ap (respond call_id) (serve_complete call_id o o' inputs replies h.1))

      started :
          (first : First)
          → start cls_cxx_read cls_cxx_write call_id first o inputs
            ≡ (responded call_id ndp_ok, replies, o')
          → (first ≡ first_response call_id true) × Serves call_id o inputs replies o'
      started cannot_connect e = let bad = ap (λ t. t.0) e in cc
      started cannot_send e = let bad = ap (λ t. t.0) e in cc
      started first_times_out e = let bad = ap (λ t. t.0) e in cc
      started first_invalid e = let bad = ap (λ t. t.0) e in cc
      started (first_response id ok) e = elim (Bool-cases (id == call_id)) [
        | inl m ↦ by_result id ok (ground arith) (
            ap
              (λ b.
                if b
                then (if ok then respond call_id (served call_id inputs o) else (forwarded, [], o))
                else (responded call_id ndp_error, [], o))
              (sym m)
            ∙ e)
        | inr m ↦
            let bad =
              ap (λ t. t.0)
                (ap
                    (λ b.
                      if b
                      then (if ok
                          then respond call_id (served call_id inputs o)
                          else (forwarded, [], o))
                      else (responded call_id ndp_error, [], o))
                    (sym m)
                  ∙ e) in
            cc
      ]
