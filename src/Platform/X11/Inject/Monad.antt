-- ===== src/Platform/X11/Inject/Monad.antt =====
-- inject.rs: computations of the injector and what they keep, put together as the methods are.
use win_xtend.Prelude.{Bool, true, false, if◌then◌else◌, Option, none, some, List, ◌∷◌}
use win_xtend.Prelude.Results.{Result, ok, err}
use win_xtend.Platform.X11.Inject.{
  Injector, Session, Sink, Request, PlatformError, Stop, M, pass, ◌>>=◌, ◌>>◌, return, fail,
  answered, send, try_keymap, try_caps_locked, ask_keymap, lift, update, reading,
}
use win_xtend.Platform.X11.Inject.Tracked.{Covered}

module _ {F : Type 0} where
  abbrev pub Tidy : Session F → Type 0
  Tidy s = Covered s.injector.held s.injector.pressed s.sent

  pub record Keeps {A : Type 0} (m : M F A) : Type 0 where
    pub runs : (s : Session F) → Tidy s → Tidy (m s).0

  pass-Tidy :
      {A B : Type 0} (f : A → M F B) (p : Session F × Result Stop A)
      → Tidy p.0
      → ((a : A) → Keeps (f a))
      → Tidy (pass f p).0
  pass-Tidy f (s, ok a) h keeps = (keeps a).runs s h
  pass-Tidy f (s, err e) h keeps = h

  pub bind_keeps :
      {A B : Type 0} {m : M F A} {f : A → M F B}
      → Keeps m
      → ((a : A) → Keeps (f a))
      → Keeps (m >>= f)
  bind_keeps {m = m} {f = f} first later = record {
    runs = λ s h. pass-Tidy f (m s) (first.runs s h) later;
  }

  pub then_keeps :
      {B : Type 0} {m : M F (Unit {0})} {n : M F B} → Keeps m → Keeps n → Keeps (m >> n)
  then_keeps {m = m} {n = n} first later = record {
    runs = λ s h. pass-Tidy (λ done. n) (m s) (first.runs s h) (λ done. later);
  }

  pub if_keeps :
      {A : Type 0} (b : Bool) (m n : M F A) → Keeps m → Keeps n → Keeps (if b then m else n)
  if_keeps true m n hm hn = hm
  if_keeps false m n hm hn = hn

  pub reading_keeps :
      {A : Type 0} {f : Injector F → M F A} → ((i : Injector F) → Keeps (f i)) → Keeps (reading f)
  reading_keeps h = record { runs = λ s. (h s.injector).runs s }

  pub return_keeps : {A : Type 0} {a : A} → Keeps (return a)
  return_keeps = record { runs = λ s h. h }

  pub fail_keeps : {A : Type 0} {e : PlatformError} → Keeps {A = A} (fail e)
  fail_keeps = record { runs = λ s h. h }

  pub lift_keeps : {A : Type 0} (r : Result PlatformError A) → Keeps (lift r)
  lift_keeps (ok a) = record { runs = λ s h. h }
  lift_keeps (err e) = record { runs = λ s h. h }

  pub update_keeps :
      (f : Injector F → Injector F)
      → ((i : Injector F) (sent : List Request)
          → Covered i.held i.pressed sent
          → Covered (f i).held (f i).pressed sent)
      → Keeps (update f)
  update_keeps f h = record { runs = λ s. h s.injector s.sent }

  module _ (k : Sink) where
    pub try_keymap_keeps : Keeps (try_keymap k)
    unfolding try_keymap
    try_keymap_keeps = record { runs = λ s h. h }

    pub try_caps_locked_keeps : Keeps (try_caps_locked k)
    unfolding try_caps_locked
    try_caps_locked_keeps = record { runs = λ s h. h }

    pub ask_keymap_keeps : Keeps (ask_keymap k)
    unfolding ask_keymap
    ask_keymap_keeps = bind_keeps try_keymap_keeps lift_keeps

    pub send_keeps :
        (r : Request)
        → ((held : _) (pressed : _) (sent : List Request)
            → Covered held pressed sent
            → Covered held pressed (r ∷ sent))
        → Keeps (send k r)
    unfolding send
    send_keeps r h = record { runs = λ s. go s (k.send s.calls r) }
      where
        go : (s : Session F) (a : Option PlatformError) → Tidy s → Tidy (answered k r a s).0
        go s none v = h _ _ _ v
        go s (some e) v = v

    -- A request, and what is recorded once it has reached the server.
    pub recorded_keeps :
        (r : Request) (f : Injector F → Injector F)
        → ((i : Injector F) (sent : List Request)
            → Covered i.held i.pressed sent
            → Covered (f i).held (f i).pressed (r ∷ sent))
        → Keeps (send k r >> update f)
    unfolding send
    recorded_keeps r f h = record { runs = λ s. go s (k.send s.calls r) }
      where
        go :
            (s : Session F) (a : Option PlatformError)
            → Tidy s
            → Tidy (pass (λ done. update f) (answered k r a s)).0
        go s none v = h s.injector s.sent v
        go s (some e) v = v

    pub recorded_then_keeps :
        {A : Type 0} (r : Request) (f : Injector F → Injector F) {n : M F A}
        → ((i : Injector F) (sent : List Request)
            → Covered i.held i.pressed sent
            → Covered (f i).held (f i).pressed (r ∷ sent))
        → Keeps n
        → Keeps (send k r >> (update f >> n))
    unfolding send
    recorded_then_keeps r f {n = n} h later = record { runs = λ s. go s (k.send s.calls r) }
      where
        go :
            (s : Session F) (a : Option PlatformError)
            → Tidy s
            → Tidy (pass (λ done. update f >> n) (answered k r a s)).0
        go s none v = later.runs _ (h s.injector s.sent v)
        go s (some e) v = v
