-- ===== src/Tests/Capturing.antt =====
-- The summary of comet2_spi_loader.c at a small capture.
use ice40_ultraplus_examples.Base.{◌-◌, ◌≡◌, [], ◌∷◌, take}
use ice40_ultraplus_examples.Loader.{rx_capture_push}
use ice40_ultraplus_examples.Loader.Capture.{rx_capture_push-Captured}
use ice40_ultraplus_examples.Loader.Summary.{
  print_capture_summary, report_of, print_capture_summary-report,
}
use ice40_ultraplus_examples.Loader.Program.{cleared}
use ice40_ultraplus_examples.Loader.Program.Finishes.{cleared-Captured}

print_capture_summary-report_example :
    print_capture_summary (rx_capture_push cleared 0x41)
    ≡ report_of (take 256 (0x41 ∷ [])) (1 - 256)
print_capture_summary-report_example =
    print_capture_summary-report (rx_capture_push cleared 0x41) (0x41 ∷ [])
      (rx_capture_push-Captured cleared [] 0x41 cleared-Captured)
