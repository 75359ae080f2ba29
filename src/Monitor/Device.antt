-- ===== src/Monitor/Device.antt =====
-- Loading and unloading of the module: what it acquires, in which order it gives that back when a
-- step fails, and what an unload leaves.
use os_jackfruit.Monitor.{MonitorEntry}
use os_jackfruit.Prelude.{
  ℕ, ℤ, pos, negsuc, is_negative, List, [], ◌∷◌, Option, none, some, arith, ◌≡◌, if◌then◌else◌,
}

-- What the module holds: the device number, the character device, the class, the device node and
-- the thread.
pub data Resource : Type 0 where
  region cdev class device thread : Resource

-- Giving back the resource that was acquired last; any other order is a fault, `none`.
abbrev pub release : Resource → List Resource → Option (List Resource)
release region (region ∷ held) = some held
release cdev (cdev ∷ held) = some held
release class (class ∷ held) = some held
release device (device ∷ held) = some held
release thread (thread ∷ held) = some held
release _ _ = none

-- The clean-up calls of a path, in the order of the code.
abbrev pub release_all : List Resource → List Resource → Option (List Resource)
release_all [] held = some held
release_all (r ∷ rs) held = elim (release r held) [ some rest ↦ release_all rs rest | none ↦ none ]

-- What the kernel answers: two return codes, and three pointers that may be errors. The error `n`
-- stands for ERR_PTR(-(n + 1)).
pub record InitAnswers : Type 0 where
  pub alloc_chrdev_region : ℤ
  pub cdev_add : ℤ
  pub class_create : Option ℕ
  pub device_create : Option ℕ
  pub kthread_run : Option ℕ

abbrev fail : Option (List Resource) → ℤ → Option (List Resource × ℤ)
fail none code = none
fail (some held) code = some (held, code)

-- `monitor_init` from the creation of the class on.
init_class : InitAnswers → Option (List Resource × ℤ)
init_class a = elim a.class_create [
  | some n ↦ fail (release_all (cdev ∷ region ∷ []) (cdev ∷ region ∷ [])) (negsuc n)
  | none ↦ elim a.device_create [
    | some n ↦
        fail (release_all (class ∷ cdev ∷ region ∷ []) (class ∷ cdev ∷ region ∷ [])) (negsuc n)
    | none ↦ elim a.kthread_run [
      | some n ↦
          fail
            (release_all (device ∷ class ∷ cdev ∷ region ∷ [])
              (device ∷ class ∷ cdev ∷ region ∷ []))
            (negsuc n)
      | none ↦ some (thread ∷ device ∷ class ∷ cdev ∷ region ∷ [], pos 0)
    ]
  ]
]

-- What the module holds afterwards, and the return code; `none`: a clean-up in the wrong order.
unfoldable pub monitor_init : InitAnswers → Option (List Resource × ℤ)
unfolding init_class
monitor_init a =
    if is_negative a.alloc_chrdev_region
    then some ([], a.alloc_chrdev_region)
    else if is_negative a.cdev_add
    then fail (release_all (region ∷ []) (region ∷ [])) a.cdev_add
    else init_class a

-- The unload of a loaded module: the thread stops, the list is emptied, the rest is given back.
unfoldable pub monitor_exit :
    List Resource → List MonitorEntry → Option (List Resource × List MonitorEntry)
monitor_exit held es = elim (release_all (thread ∷ device ∷ class ∷ cdev ∷ region ∷ []) held) [
  | some rest ↦ some (rest, [])
  | none ↦ none
]

-- The code that a pointer stands for: 0, or the error in it.
abbrev ptr_err : Option ℕ → ℤ
ptr_err none = pos 0
ptr_err (some n) = negsuc n

abbrev first_negative : List ℤ → Option ℤ
first_negative [] = none
first_negative (code ∷ codes) = if is_negative code then some code else first_negative codes

-- The code of the first step that fails, if one does.
abbrev pub first_error : InitAnswers → Option ℤ
first_error a = first_negative (
    a.alloc_chrdev_region
    ∷ a.cdev_add
    ∷ ptr_err a.class_create
    ∷ ptr_err a.device_create
    ∷ ptr_err a.kthread_run
    ∷ [])

-- Loading never cleans up in the wrong order. If no step fails it returns 0 and holds all five
-- resources; otherwise it returns the code of the first step that failed and holds nothing.
pub init_all_or_nothing :
    (a : InitAnswers)
    → monitor_init a ≡ elim (first_error a) [
      | none ↦ some (thread ∷ device ∷ class ∷ cdev ∷ region ∷ [], pos 0)
      | some code ↦ some ([], code)
    ]
unfolding monitor_init
init_all_or_nothing a = ground arith

-- An unload after a successful load gives everything back, and frees every tracked entry.
pub exit-init :
    (a : InitAnswers) (held : List Resource) (es : List MonitorEntry)
    → monitor_init a ≡ some (held, pos 0)
    → monitor_exit held es ≡ some ([], [])
unfolding monitor_init monitor_exit
exit-init a held es h = ground arith
