-- ===== src/Fs/Disk/Monad.antt =====
-- The functions that write the disk: each returns a result, `none` for -1, beside the disk that it
-- leaves. An early return keeps what was written before it.
use pico_shell.Base.{Bytes, Option, none, some}

abbrev pub M : Type 0 → Type 0
M A = Bytes → Option A × Bytes

-- what a step returned, handed on; an error ends the function
abbrev pub bind : {A B : Type 0} → Option A × Bytes → (A → M B) → Option B × Bytes
bind (some result, disk) next = next result disk
bind (none, disk) next = (none, disk)

infixl 5 ◌>>=◌
abbrev pub ◌>>=◌ : {A B : Type 0} → M A → (A → M B) → M B
(step >>= next) disk = bind (step disk) next

infixl 5 ◌>>◌
abbrev pub ◌>>◌ : {B : Type 0} → M (Unit {0}) → M B → M B
step >> next = step >>= λ done. next

abbrev pub ret : {A : Type 0} → A → M A
ret result disk = (some result, disk)

abbrev pub fail : {A : Type 0} → M A
fail disk = (none, disk)

-- a function that only reads the disk
abbrev pub reads : {A : Type 0} → (Bytes → Option A) → M A
reads look disk = (look disk, disk)
