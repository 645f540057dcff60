-- ===== src/Sched/Switch.antt =====
-- The context switch: who runs afterwards, and what becomes of the saved state.
use crabv.Base.{
  ℕ, ◌≡◌, refl, ◌∙◌, ◌≢◌, Bool, true, false, Option, none, some, [], ◌∷◌, arith, ◌==◌,
  if◌then◌else◌, ℕ_discrete,
}
use crabv.Machine.{Machine, TrapFrame}
use crabv.Proc.{Process, ProcessTable, running, invalid_pid, get, get_mut, set_current}
use crabv.Proc.Context.{
  save_current_memory, save_current_registers, restore_process_memory, restore_process_registers,
  start_frame,
}
use crabv.Proc.Lookup.{map_found}
use crabv.Proc.Inv.{IsValid, get_mut-IsValid, get_mut-get}
use crabv.Sched.{make_ready, with_state, save_current, enter}

-- Only the current process runs.
abbrev pub OneRunner : ProcessTable → Type 0
OneRunner t = (q : ℕ) (p : Process) → get t q ≡ some p → p.state ≡ running → q ≡ t.current_pid

-- The process that is left, as it is saved.
abbrev pub saved : Bool → Machine → Process → Process
saved make_current_ready m p =
    let q = record p { pc = m.sepc; sp = m.sscratch; memory = m.window } in
    if make_current_ready then make_ready q else q

-- The process that is entered, as it runs.
abbrev pub entered : Process → Process
entered p = record p { state = running; started = true }

map_map :
    (f g : Process → Process) (o : Option Process)
    → map_found f (map_found g o) ≡ map_found (λ p. f (g p)) o
map_map f g none = refl
map_map f g (some p) = refl

-- Two changes of one process.
get_mut_twice :
    (t : ProcessTable) (pid q : ℕ) (f g : Process → Process)
    → ((p : Process) → (f p).pid ≡ p.pid)
    → ((p : Process) → (g p).pid ≡ p.pid)
    → get (get_mut (get_mut t pid f) pid g) q
      ≡ (if pid == q then map_found (λ p. g (f p)) (get t q) else get t q)
get_mut_twice t pid q f g hf hg =
    get_mut-get (get_mut t pid f) pid q g hg
    ∙ ground (arith, get_mut-get t pid q f hf, map_map g f (get t q))

make_ready-pid : (p : Process) → (make_ready p).pid ≡ p.pid
make_ready-pid p = ground arith

save_current-eq :
    (r : Bool) (t : ProcessTable) (m : Machine)
    → t.current_pid ≢ invalid_pid
    → save_current r t m ≡ (
        let t1 =
          get_mut
            (get_mut t t.current_pid (λ p. record p { pc = m.sepc; sp = m.sscratch }))
            t.current_pid
            (λ p. record p { memory = m.window }) in
        if r then get_mut t1 t.current_pid make_ready else t1)
unfolding save_current save_current_memory save_current_registers get_mut
save_current-eq r t m n = ground arith

pub save_current-get :
    (r : Bool) (t : ProcessTable) (m : Machine) (q : ℕ)
    → t.current_pid ≢ invalid_pid
    → get (save_current r t m) q
      ≡ (if t.current_pid == q then map_found (saved r m) (get t q) else get t q)
save_current-get false t m q n = rw (save_current-eq false t m n) (
    get_mut_twice t t.current_pid q (λ p. record p { pc = m.sepc; sp = m.sscratch })
      (λ p. record p { memory = m.window }) (λ p. refl) (λ p. refl))
save_current-get true t m q n =
    let f : Process → Process = λ p. record p { pc = m.sepc; sp = m.sscratch } in
    let g : Process → Process = λ p. record p { memory = m.window } in
    let c = t.current_pid in
    rw (save_current-eq true t m n) (
      get_mut-get (get_mut (get_mut t c f) c g) c q make_ready make_ready-pid
      ∙ ground (
        arith,
        get_mut_twice t c q f g (λ p. refl) (λ p. refl),
        map_map make_ready (λ p. g (f p)) (get t q),
      ))

pub save_current-none :
    (r : Bool) (t : ProcessTable) (m : Machine)
    → t.current_pid ≡ invalid_pid
    → save_current r t m ≡ t
unfolding save_current
save_current-none r t m e = ground arith

-- The process that is left, with its registers and its memory.
abbrev with_registers : Machine → Process → Process
with_registers m p = record p { pc = m.sepc; sp = m.sscratch }

abbrev with_memory : Machine → Process → Process
with_memory m p = record p { memory = m.window }

pub save_current-IsValid :
    (r : Bool) (t : ProcessTable) (m : Machine) → IsValid t → IsValid (save_current r t m)
save_current-IsValid r t m v = elim (ℕ_discrete t.current_pid invalid_pid) [
  | yes nobody ↦ rw (save_current-none r t m nobody) v
  | no n ↦
      let c = t.current_pid in
      let t1 = get_mut t c (with_registers m) in
      let t2 = get_mut t1 c (with_memory m) in
      let v1 = get_mut-IsValid t c (with_registers m) (λ p. refl) v in
      let v2 = get_mut-IsValid t1 c (with_memory m) (λ p. refl) v1 in
      rw (save_current-eq r t m n)
        (elim r as (λ b. IsValid (if b then get_mut t2 c make_ready else t2)) [
          | true ↦ get_mut-IsValid t2 c make_ready make_ready-pid v2
          | false ↦ v2
        ])
]

-- The number of the current process is kept while it is saved.
pub save_current_current :
    (r : Bool) (t : ProcessTable) (m : Machine) → (save_current r t m).current_pid ≡ t.current_pid
unfolding save_current save_current_memory save_current_registers get_mut
save_current_current r t m = ground arith

-- The machine and the trap frame as a process is entered.
abbrev pub restored : Machine → Process → Machine
restored m p = record {
  window = elim p.memory [ [] ↦ m.window | b ∷ bs ↦ b ∷ bs ];
  sepc = p.pc;
  sscratch = p.sp;
}

abbrev pub frame_of : TrapFrame → Process → TrapFrame
frame_of f p = if p.started then f else start_frame p

set_current-get : (t : ProcessTable) (pid q : ℕ) → get (set_current t pid) q ≡ get t q
unfolding set_current get
set_current-get t pid q = refl

restore_process_memory-some :
    (t : ProcessTable) (pid : ℕ) (m : Machine) {p : Process}
    → get t pid ≡ some p
    → restore_process_memory t pid m
      ≡ record m { window = elim p.memory [ [] ↦ m.window | b ∷ bs ↦ b ∷ bs ] }
unfolding restore_process_memory
restore_process_memory-some t pid m {p} s = ground arith

restore_process_registers-some :
    (t : ProcessTable) (pid : ℕ) (m : Machine) (f : TrapFrame) {p : Process}
    → get t pid ≡ some p
    → let (u, m', f') = restore_process_registers t pid m f in
      (u ≡ (if p.started then t else get_mut t pid (λ q. record q { started = true })))
      × (m' ≡ record m { sepc = p.pc; sscratch = p.sp })
      × (f' ≡ frame_of f p)
unfolding restore_process_registers
restore_process_registers-some t pid m f {p} s = ground arith

-- What entering a process of the table does.
pub record Entered (t : ProcessTable) (next : ℕ) (m : Machine) (f : TrapFrame) (p : Process)
    (u : ProcessTable) (m' : Machine) (f' : TrapFrame) : Type 0 where
  pub current : u.current_pid ≡ next
  pub entries : (q : ℕ) → get u q ≡ (if next == q then some (entered p) else get t q)
  pub machine : m' ≡ restored m p
  pub frame : f' ≡ frame_of f p

get_mut_current :
    (t : ProcessTable) (pid : ℕ) (f : Process → Process)
    → (get_mut t pid f).current_pid ≡ t.current_pid
unfolding get_mut
get_mut_current t pid f = refl

set_current_current : (t : ProcessTable) (pid : ℕ) → (set_current t pid).current_pid ≡ pid
unfolding set_current
set_current_current t pid = refl

pub enter-Entered :
    (next : ℕ) (t : ProcessTable) (m : Machine) (f : TrapFrame) {p : Process}
    → get t next ≡ some p
    → let (u, m', f') = enter next t m f in Entered t next m f p u m' f'
unfolding enter
enter-Entered next t m f {p} s =
    let t1 = set_current t next in
    let s1 : get t1 next ≡ some p = set_current-get t next next ∙ s in
    let m1 = restore_process_memory t1 next m in
    let window = restore_process_memory-some t1 next m s1 in
    let (table, regs, frame) = restore_process_registers-some t1 next m1 f s1 in
    let t2 = (restore_process_registers t1 next m1 f).0 in
    record {
      current =
          get_mut_current t2 next (with_state running)
          ∙ ground (
            arith,
            table,
            get_mut_current t1 next (λ q. record q { started = true }),
            set_current_current t next,
          );
      entries = λ q.
          get_mut-get t2 next q (with_state running) (λ r. refl)
          ∙ ground (
            arith,
            table,
            s,
            set_current-get t next q,
            get_mut-get t1 next q (λ r. record r { started = true }) (λ r. refl),
          );
      machine = ground (arith, regs, window);
      frame = frame;
    }
