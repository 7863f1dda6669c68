-- ===== src/Swarm/Frame.antt =====
-- What an update of the task files changes.
use agent_message_queue.Base.{String, arith, ◌≡◌, ◌≢◌, some, List, [], ◌∷◌, string_eq}
use agent_message_queue.Swarm.Json.{Raw, Item, object, scalar, get_text}
use agent_message_queue.Swarm.Tasks.{ok}
use agent_message_queue.Swarm.Update.{Mutation, update_items}

-- One list of items from another: the first task with the id is changed by the mutation, all before it and
-- after it stays.
pub data Updated (id : String) (mutate : Mutation) : List Item → List Item → Type 0 where
  changed :
      {raw raw' : Raw} {rest : List Item}
      → get_text raw "id" ≡ id
      → mutate raw ≡ ok raw'
      → Updated id mutate (object raw ∷ rest) (object raw' ∷ rest)
  other_task :
      {raw : Raw} {rest rest' : List Item}
      → get_text raw "id" ≢ id
      → Updated id mutate rest rest'
      → Updated id mutate (object raw ∷ rest) (object raw ∷ rest')
  no_task :
      {v : String} {rest rest' : List Item}
      → Updated id mutate rest rest'
      → Updated id mutate (scalar v ∷ rest) (scalar v ∷ rest')

pub first_changed :
    (id : String) (mutate : Mutation) (raw : Raw) (rest items' : List Item)
    → get_text raw "id" ≡ id
    → update_items id mutate (object raw ∷ rest) ≡ some (ok items')
    → (raw' : Raw) × (mutate raw ≡ ok raw') × (items' ≡ object raw' ∷ rest)
unfolding update_items
first_changed id mutate raw rest items' e h = ground arith

pub later_changed :
    (id : String) (mutate : Mutation) (raw : Raw) (rest items' : List Item)
    → get_text raw "id" ≢ id
    → update_items id mutate (object raw ∷ rest) ≡ some (ok items')
    → (rest' : List Item) × (update_items id mutate rest ≡ some (ok rest'))
      × (items' ≡ object raw ∷ rest')
unfolding update_items
later_changed id mutate raw rest items' e h = ground arith

scalar_kept :
    (id : String) (mutate : Mutation) (v : String) (rest items' : List Item)
    → update_items id mutate (scalar v ∷ rest) ≡ some (ok items')
    → (rest' : List Item) × (update_items id mutate rest ≡ some (ok rest'))
      × (items' ≡ scalar v ∷ rest')
unfolding update_items
scalar_kept id mutate v rest items' h = ground arith

pub not_empty :
    (id : String) (mutate : Mutation) (items' : List Item)
    → update_items id mutate [] ≢ some (ok items')
unfolding update_items
not_empty id mutate items' h = cc h

-- An update that finds its task changes the first task with the id, as the operation says, and no other
-- entry of the list, whatever it holds.
pub update_items-Updated :
    (id : String) (mutate : Mutation) (items items' : List Item)
    → update_items id mutate items ≡ some (ok items')
    → Updated id mutate items items'
update_items-Updated id mutate [] items' h = elim (not_empty id mutate items' h) [ ]
update_items-Updated id mutate (scalar v ∷ rest) items' h =
    let (rest', p, e) = scalar_kept id mutate v rest items' h in
    rw e (no_task (update_items-Updated id mutate rest rest' p))
update_items-Updated id mutate (object raw ∷ rest) items' h =
    elim (string_eq.dec (get_text raw "id") id) [
      | yes e ↦ let (raw', p, q) = first_changed id mutate raw rest items' e h in rw q (changed e p)
      | no n ↦
          let (rest', p, q) = later_changed id mutate raw rest items' n h in
          rw q (other_task n (update_items-Updated id mutate rest rest' p))
    ]
