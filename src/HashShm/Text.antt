-- ===== src/HashShm/Text.antt =====
-- example_shm_hashtable2.cpp: the operations of `CHashShm` under a text, given with its length
-- (`none` for a length below 0) as a `const char*` or with its `size()` as a `string`.
use uc.Prelude.{ℕ, List, Option, some, length}
use uc.HashShm.Time33.{hash_time33}
use uc.HashShm.{Memory, Code, insert, get, replace, remove}

module _ {ℓ} {V : Type ℓ} (lines : ℕ) where
  unfoldable pub insert_chars : Memory V → List ℕ → Option ℕ → V → Code × Memory V
  insert_chars m skey len x = insert lines m (hash_time33 skey len) x

  unfoldable pub insert_string : Memory V → List ℕ → V → Code × Memory V
  insert_string m strkey x = insert lines m (hash_time33 strkey (some (length strkey))) x

  unfoldable pub get_chars : Memory V → List ℕ → Option ℕ → Code × Option V
  get_chars m skey len = get lines m (hash_time33 skey len)

  unfoldable pub get_string : Memory V → List ℕ → Code × Option V
  get_string m strkey = get lines m (hash_time33 strkey (some (length strkey)))

  unfoldable pub replace_chars : Memory V → List ℕ → Option ℕ → V → Code × Memory V
  replace_chars m skey len x = replace lines m (hash_time33 skey len) x

  unfoldable pub replace_string : Memory V → List ℕ → V → Code × Memory V
  replace_string m strkey x = replace lines m (hash_time33 strkey (some (length strkey))) x

  unfoldable pub remove_chars : Memory V → List ℕ → Option ℕ → Code × Memory V
  remove_chars m skey len = remove lines m (hash_time33 skey len)

  unfoldable pub remove_string : Memory V → List ℕ → Code × Memory V
  remove_string m strkey = remove lines m (hash_time33 strkey (some (length strkey)))
