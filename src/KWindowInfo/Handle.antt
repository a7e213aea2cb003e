-- ===== src/KWindowInfo/Handle.antt =====
-- The constructors, the destructor and the assignment of `KWindowInfo`. A handle is the value of its
-- field `d`; what changes the field returns the new value.
use macstrop.Shared.{ℕ, true, false, pos, ◌==◌, if◌then◌else◌, increment, decrement, is_zero}
use macstrop.KWindowInfo.Store.{Ptr, null, Private, Cmd, pure, ◌>>=◌, ◌>>◌, lift, load, store, free}
use macstrop.KWindowInfo.Object.{private_init, private_destroy}

-- `if (d != nullptr) ++d->ref;`
unfoldable pub acquire : Ptr → Cmd (Unit {0})
acquire d =
    if d == null
    then pure tt
    else do o ← load d; ref ← lift (increment o.ref); store d (record o { ref = ref })

-- `delete d`.
unfoldable pub delete_private : Ptr → Private → Cmd (Unit {0})
unfolding private_destroy
delete_private d o = do private_destroy o; free d

-- `if (d != nullptr) if (--d->ref == 0) delete d;`
unfoldable pub release_handle : Ptr → Cmd (Unit {0})
unfolding delete_private
release_handle d = if d == null then pure tt else do
  o ← load d
  ref ← lift (decrement o.ref)
  store d (record o { ref = ref })
  if is_zero ref then delete_private d (record o { ref = ref }) else pure tt

-- The object that `KWindowInfo(win, …)` sets up at the address `d`.
unfoldable pub private_new : Ptr → (psn icon_spec : ℕ) → ℕ → Private
unfolding private_init
private_new d psn icon_spec win =
    if win == 0
    then record (private_init psn icon_spec) { ref = pos 1; win = d; is_local = false }
    else record (private_init psn icon_spec) { ref = pos 1; win = win; is_local = true }

-- `KWindowInfo(WId win, unsigned long, unsigned long)`. `d` is what `new` returns.
unfoldable pub construct : Ptr → (psn icon_spec : ℕ) → ℕ → Cmd Ptr
construct d psn icon_spec win = do store d (private_new d psn icon_spec win); pure d

-- `KWindowInfo()`.
unfoldable pub construct_default : Cmd Ptr
construct_default = pure null

-- `~KWindowInfo()`.
unfoldable pub destruct : Ptr → Cmd (Unit {0})
destruct d = release_handle d

-- `KWindowInfo(const KWindowInfo &)`.
unfoldable pub construct_copy : Ptr → Cmd Ptr
construct_copy other = do acquire other; pure other

-- `operator=`.
unfoldable pub assign : Ptr → Ptr → Cmd Ptr
assign d other = if d == other then pure d else do release_handle d; acquire other; pure other
