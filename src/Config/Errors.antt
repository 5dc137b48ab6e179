-- ===== src/Config/Errors.antt =====
-- config/config.go: the variables that Load rejects.
use weops_inspect.Prelude.{
  ◌≡◌, refl, sym, ap, ◌∙◌, ◌||◌, Option, none, some, List, [], ◌∷◌, ◌++◌, arith, if◌then◌else◌,
  is_empty, ℤ, pos, Str, codes, FloatOps,
}
use weops_inspect.Decimal.{atoi}
use weops_inspect.Config.Env.{
  LoadError, invalid_float, invalid_int, Loaded, loaded, failed, ◌>>=◌, error_of, Env, getenv,
  parse_float_env, parse_int_env,
}
use weops_inspect.Config.Load.{load_thresholds, load_config}

-- A variable that holds a number, by the kind of number.
pub data Key : Type 0 where
  float_key int_key : Str → Key

-- The numbers, in the order in which Load reads them.
abbrev pub threshold_keys : List Key
threshold_keys =
    float_key (codes "INSPECT_CPU_THRESHOLD")
    ∷ float_key (codes "INSPECT_DISK_THRESHOLD")
    ∷ float_key (codes "INSPECT_INODE_THRESHOLD")
    ∷ float_key (codes "INSPECT_MEM_THRESHOLD")
    ∷ int_key (codes "INSPECT_MAX_OPEN_FILES")
    ∷ int_key (codes "INSPECT_MYSQL_REPL_LAG_THRESHOLD")
    ∷ int_key (codes "INSPECT_REDIS_REPL_IO_THRESHOLD")
    ∷ int_key (codes "INSPECT_RABBITMQ_QUEUE_BACKLOG_THRESHOLD")
    ∷ int_key (codes "INSPECT_ES_HEAP_THRESHOLD")
    ∷ int_key (codes "INSPECT_ES_RAM_THRESHOLD")
    ∷ int_key (codes "INSPECT_ES_UNASSIGNED_SHARDS_THRESHOLD")
    ∷ int_key (codes "INSPECT_REDIS_CELERY_QUEUE_THRESHOLD")
    ∷ int_key (codes "INSPECT_REDIS_MONITOR_QUEUE_THRESHOLD")
    ∷ int_key (codes "INSPECT_DOCKER_EXITED_THRESHOLD")
    ∷ []

abbrev pub other_keys : List Key
other_keys =
    int_key (codes "INSPECT_SSH_PORT") ∷ int_key (codes "INSPECT_RABBITMQ_API_TIMEOUT_SEC") ∷ []

-- The first option that is there.
abbrev pub or_else {ℓ} : {A : Type ℓ} → Option A → Option A → Option A
or_else none b = b
or_else (some a) b = some a

error_of-bind {ℓ κ} :
    {A : Type ℓ} {B : Type κ} (m : Loaded A) (f : A → Loaded B) (e : Option LoadError)
    → ((a : A) → error_of (f a) ≡ e)
    → error_of (m >>= f) ≡ or_else (error_of m) e
error_of-bind (loaded a) f e h = h a
error_of-bind (failed x) f e h = refl

module _ {F : Type 0} (fl : FloatOps F) where
  -- The error of a variable that is set, and to a text that is no number.
  unfoldable pub key_error : Env → Key → Option LoadError
  key_error env (float_key key) =
      if is_empty (getenv env key) || (fl.parse_float (getenv env key)).1
      then none
      else some (invalid_float key (getenv env key))
  key_error env (int_key key) =
      if is_empty (getenv env key) || (atoi (getenv env key)).1
      then none
      else some (invalid_int key (getenv env key))

  -- The first of these errors.
  unfoldable pub first_error : Env → List Key → Option LoadError
  unfolding key_error
  first_error env [] = none
  first_error env (key ∷ keys) = or_else (key_error env key) (first_error env keys)

  first_error-append :
      (env : Env) (ks ls : List Key)
      → first_error env (ks ++ ls) ≡ or_else (first_error env ks) (first_error env ls)
  unfolding first_error
  first_error-append env [] ls = refl
  first_error-append env (k ∷ ks) ls = ground (arith, first_error-append env ks ls)

  float-step :
      {B : Type 0} (env : Env) (key : Str) (def : F) (keys : List Key) (f : F → Loaded B)
      → ((x : F) → error_of (f x) ≡ first_error env keys)
      → error_of (parse_float_env ⦃fl = fl⦄ env key def >>= f)
        ≡ first_error env (float_key key ∷ keys)
  unfolding parse_float_env key_error first_error
  float-step env key def keys f h =
      error_of-bind (parse_float_env ⦃fl = fl⦄ env key def) f (first_error env keys) h
      ∙ ground arith

  int-step :
      {B : Type 0} (env : Env) (key : Str) (def : ℤ) (keys : List Key) (f : ℤ → Loaded B)
      → ((n : ℤ) → error_of (f n) ≡ first_error env keys)
      → error_of (parse_int_env env key def >>= f) ≡ first_error env (int_key key ∷ keys)
  unfolding parse_int_env key_error first_error
  int-step env key def keys f h =
      error_of-bind (parse_int_env env key def) f (first_error env keys) h ∙ ground arith

  error_none : (env : Env) → none ≡ first_error env []
  unfolding first_error
  error_none env = refl

  error-load_thresholds :
      (env : Env) → error_of (load_thresholds ⦃fl = fl⦄ env) ≡ first_error env threshold_keys
  error-load_thresholds env =
      unfold load_thresholds in
      float-step env (codes "INSPECT_CPU_THRESHOLD") (fl.of_int (pos 95)) _ _ (λ cpu.
        float-step env (codes "INSPECT_DISK_THRESHOLD") (fl.of_int (pos 95)) _ _ (λ disk.
          float-step env (codes "INSPECT_INODE_THRESHOLD") (fl.of_int (pos 95)) _ _ (λ inode.
            float-step env (codes "INSPECT_MEM_THRESHOLD") (fl.of_int (pos 95)) _ _ (λ mem.
              int-step env (codes "INSPECT_MAX_OPEN_FILES") (pos 65536) _ _ (λ max_open.
                int-step env (codes "INSPECT_MYSQL_REPL_LAG_THRESHOLD") (pos 60) _ _ (λ mysql_lag.
                  int-step env (codes "INSPECT_REDIS_REPL_IO_THRESHOLD") (pos 10) _ _ (λ redis_io.
                    int-step env (codes "INSPECT_RABBITMQ_QUEUE_BACKLOG_THRESHOLD") (pos 10000) _ _
                      (λ rmq_backlog.
                        int-step env (codes "INSPECT_ES_HEAP_THRESHOLD") (pos 85) _ _ (λ es_heap.
                          int-step env (codes "INSPECT_ES_RAM_THRESHOLD") (pos 95) _ _ (λ es_ram.
                            int-step env (codes "INSPECT_ES_UNASSIGNED_SHARDS_THRESHOLD") (pos 0) _
                              _
                              (λ es_unassigned.
                                int-step env (codes "INSPECT_REDIS_CELERY_QUEUE_THRESHOLD")
                                  (pos 1000) _ _
                                  (λ redis_celery.
                                    int-step env (codes "INSPECT_REDIS_MONITOR_QUEUE_THRESHOLD")
                                      (pos 10000) _ _
                                      (λ redis_monitor.
                                        int-step env (codes "INSPECT_DOCKER_EXITED_THRESHOLD")
                                          (pos 0) _ _ (λ docker_exited. error_none env))))))))))))))

  -- Load fails exactly if a number that it reads is set to a text that is no number, with the error
  -- of the first of them, in the order of the reading: the thresholds, the SSH port and the timeout.
  pub error-load_config :
      (env : Env) (output_dir : Str)
      → error_of (load_config ⦃fl = fl⦄ env output_dir)
        ≡ first_error env (threshold_keys ++ other_keys)
  error-load_config env output_dir =
      unfold load_config in
      error_of-bind (load_thresholds ⦃fl = fl⦄ env) _ (first_error env other_keys) (λ t.
        int-step env (codes "INSPECT_SSH_PORT") (pos 22) _ _ (λ p.
          int-step env (codes "INSPECT_RABBITMQ_API_TIMEOUT_SEC") (pos 60) _ _
            (λ a. error_none env)))
      ∙ ap (λ e. or_else e (first_error env other_keys)) (error-load_thresholds env)
      ∙ sym (first_error-append env threshold_keys other_keys)
