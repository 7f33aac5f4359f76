-- ===== src/Service/Names.antt =====
-- The writes of each service to the entry of a new object.
use hello_world_osal.Base.{ℕ, refl, arith}
use hello_world_osal.Idmap.ObjectType
use hello_world_osal.Service.Create.{Names}
use hello_world_osal.Service.CountSem.{count_sem_store}
use hello_world_osal.Service.BinSem.{bin_sem_store}
use hello_world_osal.Service.Mutex.{mutex_store}
use hello_world_osal.Service.Queue.{queue_store}

module _ {K : Type 0} where
  pub count_sem_store-Names : Names {K = K} ObjectType.countsem count_sem_store
  unfolding count_sem_store
  count_sem_store-Names = record {
    named = λ name i s. ground arith;
    others = λ name i s e ne. ground arith;
    owners = λ name i s. refl;
    on = λ name i s. refl;
    flag = λ name i s. refl;
  }

  pub bin_sem_store-Names : Names {K = K} ObjectType.binsem bin_sem_store
  unfolding bin_sem_store
  bin_sem_store-Names = record {
    named = λ name i s. ground arith;
    others = λ name i s e ne. ground arith;
    owners = λ name i s. refl;
    on = λ name i s. refl;
    flag = λ name i s. refl;
  }

  pub mutex_store-Names : Names {K = K} ObjectType.mutex mutex_store
  unfolding mutex_store
  mutex_store-Names = record {
    named = λ name i s. ground arith;
    others = λ name i s e ne. ground arith;
    owners = λ name i s. refl;
    on = λ name i s. refl;
    flag = λ name i s. refl;
  }

  pub queue_store-Names :
      (depth size : ℕ) → Names {K = K} ObjectType.queue (λ name. queue_store name depth size)
  unfolding queue_store
  queue_store-Names depth size = record {
    named = λ name i s. ground arith;
    others = λ name i s e ne. ground arith;
    owners = λ name i s. refl;
    on = λ name i s. refl;
    flag = λ name i s. refl;
  }
