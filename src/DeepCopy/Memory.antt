-- ===== src/DeepCopy/Memory.antt =====
-- Go's pointers and slices: new, make, reading and writing through them, and the two blocks of code
-- that a generated deep copy consists of.
use Prim.Native.Nat.{zero, suc, ◌+◌, compare, Ordering}
use otterscale_operator.Common.{ℕ, Option, none, some, List, ◌≡◌, Bool, true, false, if◌then◌else◌}
use otterscale_operator.Common.Exec.{Exec, ok, pure, raise, nil_dereference, ◌>>=◌, ◌>>◌}
use otterscale_operator.Common.Lists.{length, get_elem?, set, replicate}
use otterscale_operator.DeepCopy.Structs.{Layout, Pointer, Slice, Value, Heap}

-- A Go type whose values lie in memory.
pub record Stored (F : Layout) (A : Type 0) : Type 0 where
  pub zero_value : A
  pub to_value : A → Value F
  pub of_value : Value F → Option A
  pub of_value-to_value : (a : A) → of_value (to_value a) ≡ some a

abbrev pub bind? : {A B : Type 0} → Option A → (A → Option B) → Option B
bind? none f = none
bind? (some a) f = f a

-- A read that finds nothing there is a panic.
abbrev pub demand : {F : Layout} {A : Type 0} → Option A → Exec (Heap F) A
demand none = raise nil_dereference
demand (some a) = pure a

abbrev pub same_address : ℕ → ℕ → Bool
same_address p q = elim (compare p q) [ Ordering.eq ↦ true | _ ↦ false ]

abbrev pub put :
    {F : Layout} → ℕ → List (Value F) → (ℕ → Option (List (Value F))) → ℕ → Option (List (Value F))
put p xs cell q = if same_address p q then some xs else cell q

module _ {F : Layout} where
  unfoldable pub allocate : List (Value F) → Exec (Heap F) ℕ
  allocate xs h = (ok h.next, record { next = h.next + 1; cell = put h.next xs h.cell })

  unfoldable pub read_array : ℕ → Exec (Heap F) (List (Value F))
  read_array p h = demand (h.cell p) h

  unfoldable pub write_array : ℕ → List (Value F) → Exec (Heap F) (Unit {0})
  write_array p xs h = (ok tt, record h { cell = put p xs h.cell })

module _ {F : Layout} {A : Type 0} (S : Stored F A) where
  -- `(*p)[i]`
  unfoldable pub load_at : ℕ → ℕ → Exec (Heap F) A
  unfolding read_array
  load_at p i = do xs ← read_array p; demand (bind? (get_elem? xs i) S.of_value)

  -- `(*p)[i] = a`
  unfoldable pub store_at : ℕ → ℕ → A → Exec (Heap F) (Unit {0})
  unfolding read_array write_array
  store_at p i a = do
    xs ← read_array p
    old ← demand (get_elem? xs i)
    write_array p (set xs i (S.to_value a))

  -- `make([]A, n)`; `new(A)` for 1.
  unfoldable pub make : ℕ → Exec (Heap F) ℕ
  unfolding allocate
  make n = allocate (replicate n (S.to_value S.zero_value))

  -- `len(*p)`
  unfoldable pub length_at : ℕ → Exec (Heap F) ℕ
  unfolding read_array
  length_at p = do xs ← read_array p; pure (length xs)

  -- `copy_into` stands for the method DeepCopyInto of A, the function from `*in` to what it leaves in
  -- `*out`; it is `pure` for an assignment.
  module _ (copy_into : A → Exec (Heap F) A) where
    -- A DeepCopy method, and the block for a field that is a pointer:
    -- `if in.X != nil { *out = new(A); (*in).DeepCopyInto(*out) }`
    unfoldable pub copy_pointer : Pointer → Exec (Heap F) Pointer
    copy_pointer none = pure none
    copy_pointer (some p) = do
      q ← make 1
      a ← load_at p 0
      b ← copy_into a
      store_at q 0 b
      pure (some q)

    -- `(*in)[i].DeepCopyInto(&(*out)[i])`
    unfoldable pub copy_element : ℕ → ℕ → ℕ → Exec (Heap F) (Unit {0})
    copy_element p q i = do a ← load_at p i; b ← copy_into a; store_at q i b

    -- `for i := range *in { … }`, from index `i` on, of which `n` are left.
    unfoldable pub copy_elements : ℕ → ℕ → ℕ → ℕ → Exec (Heap F) (Unit {0})
    copy_elements p q i zero = pure tt
    copy_elements p q i (suc n) = copy_element p q i >> copy_elements p q (i + 1) n

    -- The block for a field that is a slice: `if in.X != nil { *out = make([]A, len(*in)); for … }`
    -- With `pure` for the elements it is also the block that ends in `copy(*out, *in)`.
    unfoldable pub copy_slice : Slice → Exec (Heap F) Slice
    copy_slice none = pure none
    copy_slice (some p) = do n ← length_at p; q ← make n; copy_elements p q 0 n; pure (some q)

-- The types of the API packages that are runtime objects.
pub data ObjectType : Type 0 where
  workspace_type workspace_list_type module_type module_list_type : ObjectType
  module_template_type module_template_list_type : ObjectType

-- A value of the interface runtime.Object: nil, or a pointer of one of the types, which may be nil.
pub data RuntimeObject : Type 0 where
  nil_object : RuntimeObject
  object_of : ObjectType → Pointer → RuntimeObject

abbrev pub not_nil : ObjectType → Pointer → RuntimeObject
not_nil t none = nil_object
not_nil t (some p) = object_of t (some p)

-- A DeepCopyObject method, by its DeepCopy: `if c := in.DeepCopy(); c != nil { return c }; return nil`
abbrev pub copy_object :
    {F : Layout} → ObjectType → Exec (Heap F) Pointer → Exec (Heap F) RuntimeObject
copy_object t deep_copy = do c ← deep_copy; pure (not_nil t c)
