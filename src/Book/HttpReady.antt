-- ===== src/Book/HttpReady.antt =====
-- The settings of a new client of HTTP, and the pointer to its client.
use runn.Common.{
  String, ◌≡◌, refl, subst, Bool, true, false, Option, none, some, ◌==◌, if◌then◌else◌, is_some,
}
use runn.Errors.{Error, Result, ok, err}
use runn.RunnerConfig.{HttpRunnerConfig}
use runn.Book.{HttpRunner, HttpClient}
use runn.Book.Changes.{Changed, panics, fails, done, ◌>>=◌, with_ok}
use runn.Book.Loader.{Loader, fp, new_http_validator}
use runn.Book.Clients.{new_http_runner, http_with}
use runn.Book.HttpSettings.{
  on_client, set_timeout, set_boundary, with_error, read_into, apply_http_config, set_validator,
  located, with_ca_cert, with_cert, with_key, with_timeout, with_trace,
}

abbrev pub HasClient : HttpRunner → Type 0
HasClient r = is_some r.client ≡ true

-- No panic, and the client is there also beside an error.
abbrev pub Ready : Changed HttpRunner → Type 0
Ready panics = ⊥
Ready (fails e r) = HasClient r
Ready (done r) = HasClient r

Ready-bind :
    (m : Changed HttpRunner) (f : HttpRunner → Changed HttpRunner)
    → Ready m
    → ((r : HttpRunner) → HasClient r → Ready (f r))
    → Ready (m >>= f)
Ready-bind panics f h k = h
Ready-bind (fails e r) f h k = h
Ready-bind (done r) f h k = k r h

Ready-with_ok :
    {A : Type 0} (r : HttpRunner) (a : Result A) (f : A → Changed HttpRunner)
    → HasClient r
    → ((x : A) → Ready (f x))
    → Ready (with_ok r a f)
Ready-with_ok r (err e) f h k = h
Ready-with_ok r (ok a) f h k = k a

Ready-on_client :
    (f : HttpClient → HttpClient) (r : HttpRunner) → HasClient r → Ready (on_client f r)
Ready-on_client f r h = by_client r.client h
  where
    by_client :
        (o : Option HttpClient)
        → is_some o ≡ true
        → Ready
            (elim o [ none ↦ panics | some client ↦ done (record r { client = some (f client) }) ])
    by_client none h = absurd (cc)
    by_client (some c) h = refl

Ready-if :
    (b : Bool) (r : HttpRunner) (m : Changed HttpRunner)
    → HasClient r
    → Ready m
    → Ready (if b then m else done r)
Ready-if true r m h k = k
Ready-if false r m h k = h

Ready-unless :
    (b : Bool) (r : HttpRunner) (m : Changed HttpRunner)
    → HasClient r
    → Ready m
    → Ready (if b then done r else m)
Ready-unless true r m h k = h
Ready-unless false r m h k = k

Ready-with_error : (e : Option Error) (m : Changed HttpRunner) → Ready m → Ready (with_error e m)
Ready-with_error none m h = h
Ready-with_error (some e) m h = Ready-bind m (fails e) h λ r k. k

ok_injective : {A : Type 0} {a b : A} → ok a ≡ ok b → a ≡ b
ok_injective h = cc

module _ (w : Loader) where
  Ready-read_into :
      (root p : String) (set : String → HttpRunner → HttpRunner) (r : HttpRunner)
      → HasClient r
      → ((b : String) → HasClient (set b r))
      → Ready (read_into w root p set r)
  Ready-read_into root p set r h k =
      Ready-unless (p == "") r _ h (Ready-with_ok r (w.read_file (fp w p root)) _ h k)

  Ready-set_timeout :
      (c : HttpRunnerConfig) (r : HttpRunner) → HasClient r → Ready (set_timeout w c r)
  Ready-set_timeout c r h =
      Ready-unless (c.timeout == "") r _ h (Ready-with_error _ _ (Ready-on_client _ r h))

  Ready-with_ca_cert :
      (root : String) (c : HttpRunnerConfig) (r : HttpRunner)
      → HasClient r
      → Ready (with_ca_cert w root c r)
  Ready-with_ca_cert root c r h =
      Ready-read_into root c.ca_cert (λ b r'. record r' { ca_cert = b }) (set_boundary c r) h
        (λ b. h)

  Ready-with_cert :
      (root : String) (c : HttpRunnerConfig) (r : HttpRunner)
      → HasClient r
      → Ready (with_cert w root c r)
  Ready-with_cert root c r h =
      Ready-read_into root c.cert (λ b r'. record r' { cert = b }) r h (λ b. h)

  Ready-with_key :
      (root : String) (c : HttpRunnerConfig) (r : HttpRunner)
      → HasClient r
      → Ready (with_key w root c r)
  Ready-with_key root c r h =
      Ready-read_into root c.key (λ b r'. record r' { key = b }) r h (λ b. h)

  Ready-with_timeout :
      (c : HttpRunnerConfig) (r : HttpRunner) → HasClient r → Ready (with_timeout w c r)
  Ready-with_timeout c r h = Ready-set_timeout c (record r { skip_verify = c.skip_verify }) h

  Ready-apply_http_config :
      (root : String) (c : HttpRunnerConfig) (r : HttpRunner)
      → HasClient r
      → Ready (apply_http_config w root c r)
  unfolding apply_http_config
  Ready-apply_http_config root c r h =
      let redirect = Ready-if c.not_follow_redirect r _ h (Ready-on_client _ r h) in
      let ca = Ready-bind _ (with_ca_cert w root c) redirect (Ready-with_ca_cert root c) in
      let cert = Ready-bind _ (with_cert w root c) ca (Ready-with_cert root c) in
      let key = Ready-bind _ (with_key w root c) cert (Ready-with_key root c) in
      let timeout = Ready-bind _ (with_timeout w c) key (Ready-with_timeout c) in
      Ready-bind _ (with_trace w c) timeout (λ r k. k)

  -- From a new client to its validator.
  pub Ready-settings :
      (root : String) (c : HttpRunnerConfig) (r : HttpRunner)
      → HasClient r
      → Ready (
          apply_http_config w root c r
          >>= set_validator w (new_http_validator w (located w root c)))
  Ready-settings root c r h = Ready-bind _ _ (Ready-apply_http_config root c r h) λ r' h'.
      Ready-with_ok r' (new_http_validator w (located w root c))
        (λ v. done (record r' { validator = v })) h' (λ v. h')

  pub new_http_runner-HasClient :
      (name endpoint : String) (r : HttpRunner)
      → new_http_runner w name endpoint ≡ ok r
      → HasClient r
  unfolding new_http_runner
  new_http_runner-HasClient name endpoint r h = by_url (w.parse_url endpoint) h
    where
      by_url :
          (u : Result String)
          → elim u [ err e ↦ err e | ok u ↦ ok (http_with name u) ] ≡ ok r
          → HasClient r
      by_url (err e) h = absurd (cc)
      by_url (ok u) h = subst HasClient (ok_injective h) refl
