-- ===== src/CommandLine/Tests.antt =====
-- Lines and names of the commands of kernel/src/commandline.rs.
use lemoncake.Base.{refl, none, some, bytes_eq}
use lemoncake.CommandLine.Terminal.{Console, Output}
use lemoncake.CommandLine.Commands.{registered}
use lemoncake.CommandLine.Search.{Distinct}

-- A console that keeps the last thing that it printed.
abbrev last_output : Console
last_output = record {
  World = Output;
  print = λ output w. output;
  yay = λ w. w;
  sad = λ w. w;
  clear = λ w. w;
  framebuffer = λ w. some (1280, 800);
  fs = λ w. none;
  write_port = λ port value w. w;
}

registered-Distinct : Distinct registered
unfolding registered bytes_eq
registered-Distinct = (
  (
    (refl, (refl, (refl, tt))),
    (
      (refl, (refl, (refl, (refl, tt)))),
      (
        (refl, (refl, (refl, (refl, tt)))),
        (
          (refl, (refl, (refl, (refl, tt)))),
          (
            (refl, tt),
            (
              (refl, tt),
              (
                (refl, (refl, tt)),
                (
                  (refl, (refl, tt)),
                  (
                    (refl, (refl, tt)),
                    ((refl, (refl, tt)), ((refl, (refl, (refl, (refl, tt)))), tt)),
                  ),
                ),
              ),
            ),
          ),
        ),
      ),
    ),
  ),
  (
    (
      (refl, (refl, (refl, (refl, tt)))),
      (
        (refl, (refl, (refl, (refl, tt)))),
        (
          (refl, (refl, (refl, (refl, tt)))),
          (
            (refl, tt),
            (
              (refl, tt),
              (
                (refl, (refl, tt)),
                (
                  (refl, (refl, tt)),
                  (
                    (refl, (refl, tt)),
                    ((refl, (refl, tt)), ((refl, (refl, (refl, (refl, tt)))), tt)),
                  ),
                ),
              ),
            ),
          ),
        ),
      ),
    ),
    (
      (
        (refl, (refl, (refl, (refl, tt)))),
        (
          (refl, (refl, (refl, (refl, tt)))),
          (
            (refl, tt),
            (
              (refl, tt),
              (
                (refl, (refl, tt)),
                (
                  (refl, (refl, tt)),
                  (
                    (refl, (refl, tt)),
                    ((refl, (refl, tt)), ((refl, (refl, (refl, (refl, tt)))), tt)),
                  ),
                ),
              ),
            ),
          ),
        ),
      ),
      (
        (
          (refl, (refl, (refl, (refl, tt)))),
          (
            (refl, tt),
            (
              (refl, tt),
              (
                (refl, (refl, tt)),
                (
                  (refl, (refl, tt)),
                  (
                    (refl, (refl, tt)),
                    ((refl, (refl, tt)), ((refl, (refl, (refl, (refl, tt)))), tt)),
                  ),
                ),
              ),
            ),
          ),
        ),
        (
          (
            (refl, tt),
            (
              (refl, tt),
              (
                (refl, (refl, tt)),
                (
                  (refl, (refl, tt)),
                  (
                    (refl, (refl, tt)),
                    ((refl, (refl, tt)), ((refl, (refl, (refl, (refl, tt)))), tt)),
                  ),
                ),
              ),
            ),
          ),
          (
            (
              (refl, tt),
              (
                (refl, (refl, tt)),
                (
                  (refl, (refl, tt)),
                  (
                    (refl, (refl, tt)),
                    ((refl, (refl, tt)), ((refl, (refl, (refl, (refl, tt)))), tt)),
                  ),
                ),
              ),
            ),
            (
              (
                (refl, (refl, tt)),
                (
                  (refl, (refl, tt)),
                  (
                    (refl, (refl, tt)),
                    ((refl, (refl, tt)), ((refl, (refl, (refl, (refl, tt)))), tt)),
                  ),
                ),
              ),
              (
                (
                  (refl, (refl, tt)),
                  (
                    (refl, (refl, tt)),
                    ((refl, (refl, tt)), ((refl, (refl, (refl, (refl, tt)))), tt)),
                  ),
                ),
                (
                  (
                    (refl, (refl, tt)),
                    ((refl, (refl, tt)), ((refl, (refl, (refl, (refl, tt)))), tt)),
                  ),
                  (
                    ((refl, (refl, tt)), ((refl, (refl, (refl, (refl, tt)))), tt)),
                    (((refl, (refl, (refl, (refl, tt)))), tt), (tt, tt)),
                  ),
                ),
              ),
            ),
          ),
        ),
      ),
    ),
  ),
)
