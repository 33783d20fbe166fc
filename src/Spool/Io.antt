-- ===== src/Spool/Io.antt =====
-- internal/spool/spool.go: a critical section over an open file. An action has the file's content
-- as its state, and what was written before an error stays written.
use agentpulse_bridge.Base.{ℕ, Bool, true, false, Option, none, some, ◌++◌, Bytes, take}

pub data IoError : Type 0 where
  mkdir_failed open_failed lock_failed scan_failed seek_failed read_failed truncate_failed
        write_failed :
      IoError

pub data Result {ℓ} (A : Type ℓ) : Type ℓ where
  ok : A → Result A
  err : IoError → Result A

-- Which system calls fail. A failing `write` number `k` writes some leading bytes, `some n`.
pub record Faults : Type 0 where
  pub mkdir : Bool
  pub open_file : Bool
  pub lock : Bool
  pub scan : Bool
  pub seek_end : Bool
  pub seek_start : Bool
  pub read : Bool
  pub truncate : Bool
  pub rewind : Bool
  pub write : ℕ → Option ℕ

abbrev pub no_faults : Faults
no_faults = record {
  mkdir = false;
  open_file = false;
  lock = false;
  scan = false;
  seek_end = false;
  seek_start = false;
  read = false;
  truncate = false;
  rewind = false;
  write = λ _. none;
}

abbrev pub Io : Type 0 → Type 0
Io A = Bytes → Bytes × Result A

module _ {A B : Type 0} where
  abbrev pub continue : Bytes × Result A → (A → Io B) → Bytes × Result B
  continue (content, ok a) f = f a content
  continue (content, err e) f = (content, err e)

  infixl 5 ◌>>=◌ ◌>>◌
  abbrev pub ◌>>=◌ : Io A → (A → Io B) → Io B
  ◌>>=◌ m f content = continue (m content) f

  abbrev pub ◌>>◌ : Io A → Io B → Io B
  ◌>>◌ m k content = continue (m content) (λ _. k)

abbrev pub pure : {A : Type 0} → A → Io A
pure a content = (content, ok a)

abbrev pub fail : {A : Type 0} → IoError → Io A
fail e content = (content, err e)

-- A call that fails with `e` if the fault is set.
abbrev pub attempt : Bool → IoError → Io (Unit {0})
attempt true e content = (content, err e)
attempt false e content = (content, ok tt)

abbrev pub get_content : Io Bytes
get_content content = (content, ok content)

abbrev pub put_content : Bytes → Io (Unit {0})
put_content new content = (new, ok tt)

abbrev write_result : Option ℕ → Bytes → Io (Unit {0})
write_result none buf content = (content ++ buf, ok tt)
write_result (some n) buf content = (content ++ take n buf, err write_failed)

-- The `k`-th `f.Write` of the section, at the end of the file.
abbrev pub write : Faults → ℕ → Bytes → Io (Unit {0})
write io k buf = write_result (io.write k) buf
