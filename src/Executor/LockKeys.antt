-- ===== src/Executor/LockKeys.antt =====
-- `deriveLockKey` of cloud-command-executor.ts.
use closedloop_electron.Base.{◌≡◌, false, none, some, [], ◌++◌, Text, text, trim, is_empty}
use closedloop_electron.Json.{str, get, as_record, as_non_empty_string}
use closedloop_electron.Executor.State.{Command}
use closedloop_electron.Executor.Keys.{derive_lock_key}

module _ (c : Command) (no_key : c.lock_key ≡ none) where
  -- Without a key of its own, a command whose body has a text as `repoPath` is locked by its
  -- operation and that text without the space around it; other paths of the body do not count.
  pub derive_lock_key-repo :
      (path : Text)
      → get (text "repoPath") (as_record c.body) ≡ str path
      → is_empty (trim path) ≡ false
      → derive_lock_key c ≡ some (c.operation_id ++ text ":" ++ trim path)
  unfolding derive_lock_key as_non_empty_string
  derive_lock_key-repo path here given = rw (no_key, here, given)

  -- A blank `repoPath` leaves the command without a lock, whatever other path its body has: the
  -- empty text is no reason for `??` to go on.
  pub derive_lock_key-blank :
      (path : Text)
      → get (text "repoPath") (as_record c.body) ≡ str path
      → trim path ≡ []
      → derive_lock_key c ≡ none
  unfolding derive_lock_key as_non_empty_string
  derive_lock_key-blank path here blank = rw (no_key, here, blank)
