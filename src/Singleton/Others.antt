-- ===== src/Singleton/Others.antt =====
-- What an action of a thread leaves as it is: what the other threads know, and the counts.
use cpp20examples.Prelude.{ℕ, ◌+◌, ◌≤◌, ◌≡◌, refl, arith, Option, ap}
use cpp20examples.Singleton.{
  Memory, Place, load, want_lock, recheck, create, store, unlock, want_once, once_create,
  once_store, finish_once, read_instance, give, Pc, calls, Act, first_null, first_set, acquire,
  second_null, second_set, make, set_instance, release, once_first, once_done, once_make, once_set,
  once_finish, read, return,
}
use cpp20examples.Singleton.Acts.{set, made, holds, left, length, SafePc, set_le}

-- An action without the lock changes neither the object nor how many there are; once there, the object
-- stays.
pub Act-still :
    {entry : Place} {m m' : Memory} {p p' : Pc}
    → Act entry m p m' p'
    → holds p ≡ 0
    → (m'.created ≡ m.created) × (made m'.instance_ ≡ made m.instance_)
Act-still (first_null e) h = (refl, refl)
Act-still (first_set e) h = (refl, refl)
Act-still (acquire e) h = (refl, refl)
Act-still (second_null e) h = (refl, refl)
Act-still (second_set e) h = (refl, refl)
Act-still make h = absurd (omega (arith, h))
Act-still set_instance h = absurd (omega (arith, h))
Act-still release h = (refl, refl)
Act-still (once_first e e') h = (refl, refl)
Act-still (once_done e) h = (refl, refl)
Act-still once_make h = absurd (omega (arith, h))
Act-still once_set h = absurd (omega (arith, h))
Act-still once_finish h = (refl, refl)
Act-still (read e) h = (refl, refl)
Act-still return h = (refl, refl)

made_le : (o : Option ℕ) → made o ≤ 1
made_le o = ground arith

pub Act-grows :
    {entry : Place} {m m' : Memory} {p p' : Pc}
    → Act entry m p m' p'
    → made m.instance_ ≤ made m'.instance_
Act-grows (first_null e) = omega arith
Act-grows (first_set e) = omega arith
Act-grows (acquire e) = omega arith
Act-grows (second_null e) = omega arith
Act-grows (second_set e) = omega arith
Act-grows make = omega arith
Act-grows {m = m} set_instance = made_le m.instance_
Act-grows release = omega arith
Act-grows (once_first e e') = omega arith
Act-grows (once_done e) = omega arith
Act-grows once_make = omega arith
Act-grows {m = m} once_set = made_le m.instance_
Act-grows once_finish = omega arith
Act-grows (read e) = omega arith
Act-grows return = omega arith

-- What the other threads know stays true.
pub Act-others :
    (lock_version : ℕ) {entry : Place} {m m' : Memory} {p p' : Pc} (q : Pc)
    → Act entry m p m' p'
    → holds p + holds q ≤ 1
    → SafePc lock_version m q
    → SafePc lock_version m' q
Act-others lock_version (calls k load) act h s = s
Act-others lock_version (calls k want_lock) act h s = s
Act-others lock_version (calls k recheck) act h s =
    ground (arith, s, Act-still act (omega (arith, h)))
Act-others lock_version (calls k create) act h s =
    ground (arith, s, Act-still act (omega (arith, h)))
Act-others lock_version (calls k (store sin)) act h s =
    ground (arith, s, Act-still act (omega (arith, h)))
Act-others lock_version (calls k (unlock sin)) act h s =
    ground (arith, s, Act-still act (omega (arith, h)))
Act-others lock_version (calls k want_once) act h s = s
Act-others lock_version (calls k once_create) act h s =
    ground (arith, s, Act-still act (omega (arith, h)))
Act-others lock_version (calls k (once_store sin)) act h s =
    ground (arith, s, Act-still act (omega (arith, h)))
Act-others lock_version (calls k finish_once) act h s =
    ground (arith, s, Act-still act (omega (arith, h)))
Act-others lock_version {m' = m'} (calls k read_instance) act h s =
    ground (arith, s, Act-grows act, made_le m'.instance_)
Act-others lock_version (calls k (give sin)) act h s = s

-- How an action changes who holds the lock, how many calls are left, and that only a thread with
-- calls left holds it.
pub Act-counts :
    {entry : Place} {m m' : Memory} {p p' : Pc}
    → ((k : ℕ) → holds (calls k entry) ≡ 0)
    → Act entry m p m' p'
    → holds p ≤ set m.locked
    → (holds p' + set m.locked ≡ holds p + set m'.locked)
      × (length m'.returned + left p' ≡ length m.returned + left p)
      × (holds p' ≤ left p')
Act-counts o (first_null e) h = (refl, refl, omega arith)
Act-counts o (first_set e) h = (refl, refl, omega arith)
Act-counts o (acquire e) h = (omega (arith, ap set e), refl, omega arith)
Act-counts o (second_null e) h = (refl, refl, omega arith)
Act-counts o (second_set e) h = (refl, refl, omega arith)
Act-counts o make h = (refl, refl, omega arith)
Act-counts o set_instance h = (refl, refl, omega arith)
Act-counts {m = m} o release h = (omega (arith, h, set_le m.locked), refl, omega arith)
Act-counts o (once_first e e') h = (omega (arith, ap set e), refl, omega arith)
Act-counts o (once_done e) h = (refl, refl, omega arith)
Act-counts o once_make h = (refl, refl, omega arith)
Act-counts o once_set h = (refl, refl, omega arith)
Act-counts {m = m} o once_finish h = (omega (arith, h, set_le m.locked), refl, omega arith)
Act-counts o (read e) h = (refl, refl, omega arith)
Act-counts o (return {k = k}) h = (omega (arith, o k), omega arith, omega (arith, o k))
